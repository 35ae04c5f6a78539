-- ===== src/Server/Kept.antt =====
-- Handlers that leave the users and their sessions alone.
use bully.Prelude.{refl, subst, sym, ◌∙◌, ◌≡◌}
use bully.Auth.Account.Names.{IsNamed}
use bully.Db.Moves.{Preorder}
use bully.Session.Rows.{Evolves, Evolves-refl, EvolvesDb}
use bully.Tables.{Db}

abbrev pub KeepsAccounts : Db → Db → Type 0
KeepsAccounts a b = (b.users ≡ a.users) × (b.sessions ≡ a.sessions)

pub accounts_kept : Preorder KeepsAccounts
accounts_kept = record { same = λ a. (refl, refl); then_so = λ a b c f g. (g.0 ∙ f.0, g.1 ∙ f.1) }

pub KeepsAccounts-Evolves : (a b : Db) → KeepsAccounts a b → EvolvesDb a b
KeepsAccounts-Evolves a b (users_same, sessions_same) =
    subst (Evolves a.sessions) (sym sessions_same) (Evolves-refl a.sessions)

pub KeepsAccounts-IsNamed : (a b : Db) → KeepsAccounts a b → IsNamed a.users → IsNamed b.users
KeepsAccounts-IsNamed a b (users_same, sessions_same) = subst IsNamed (sym users_same)
