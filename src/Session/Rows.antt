-- ===== src/Session/Rows.antt =====
-- A relation between the rows of `sessions` before and after: a row stays at its place, keeps its id,
-- its user and its time of creation, and once revoked the time of that; new rows come at the end.
use bully.Prelude.{
  Bool, List, Option, [], false, if◌then◌else◌, none, refl, some, true, ℕ, ◌++◌, ◌∙◌, ◌∷◌, ◌≡◌,
}
use bully.Db.{update_where}
use bully.Db.Moves.{Preorder}
use bully.Session.{is_null, revoke_at}
use bully.Tables.{Db, SessionRow}

-- Once set, the time of revocation stays.
abbrev pub Stays : Option ℕ → Option ℕ → Type 0
Stays none after = Unit
Stays (some t) after = after ≡ some t

pub record RowStep (a b : SessionRow) : Type 0 where
  pub id : b.id ≡ a.id
  pub user_id : b.user_id ≡ a.user_id
  pub created_at : b.created_at ≡ a.created_at
  pub revoked_at : Stays a.revoked_at b.revoked_at

abbrev pub Evolves : List SessionRow → List SessionRow → Type 0
Evolves [] ys = Unit
Evolves (x ∷ xs) [] = ⊥
Evolves (x ∷ xs) (y ∷ ys) = RowStep x y × Evolves xs ys

abbrev pub EvolvesDb : Db → Db → Type 0
EvolvesDb a b = Evolves a.sessions b.sessions

Stays-refl : (o : Option ℕ) → Stays o o
Stays-refl none = tt
Stays-refl (some t) = refl

Stays-trans : (a b c : Option ℕ) → Stays a b → Stays b c → Stays a c
Stays-trans none b c h k = tt
Stays-trans (some t) none c h k = cc
Stays-trans (some t) (some s) c h k = cc

pub RowStep-refl : (r : SessionRow) → RowStep r r
RowStep-refl r = record {
  id = refl;
  user_id = refl;
  created_at = refl;
  revoked_at = Stays-refl r.revoked_at;
}

RowStep-trans : (a b c : SessionRow) → RowStep a b → RowStep b c → RowStep a c
RowStep-trans a b c h k = record {
  id = k.id ∙ h.id;
  user_id = k.user_id ∙ h.user_id;
  created_at = k.created_at ∙ h.created_at;
  revoked_at = Stays-trans a.revoked_at b.revoked_at c.revoked_at h.revoked_at k.revoked_at;
}

pub Evolves-refl : (xs : List SessionRow) → Evolves xs xs
Evolves-refl [] = tt
Evolves-refl (x ∷ xs) = (RowStep-refl x, Evolves-refl xs)

Evolves-trans : (xs ys zs : List SessionRow) → Evolves xs ys → Evolves ys zs → Evolves xs zs
Evolves-trans [] ys zs h k = tt
Evolves-trans (x ∷ xs) [] zs h k = elim h [ ]
Evolves-trans (x ∷ xs) (y ∷ ys) [] h k = elim k [ ]
Evolves-trans (x ∷ xs) (y ∷ ys) (z ∷ zs) h k =
    (RowStep-trans x y z h.0 k.0, Evolves-trans xs ys zs h.1 k.1)

pub evolution : Preorder EvolvesDb
evolution = record {
  same = λ a. Evolves-refl a.sessions;
  then_so = λ a b c h k. Evolves-trans a.sessions b.sessions c.sessions h k;
}

pub Evolves-append : (xs ys : List SessionRow) → Evolves xs (xs ++ ys)
Evolves-append [] ys = tt
Evolves-append (x ∷ xs) ys = (RowStep-refl x, Evolves-append xs ys)

RowStep-if :
    (b : Bool) (r s : SessionRow) → (b ≡ true → RowStep r s) → RowStep r (if b then s else r)
RowStep-if true r s h = h refl
RowStep-if false r s h = RowStep-refl r

-- An UPDATE whose change is a step on the rows that it touches.
pub Evolves-update_where :
    (test : SessionRow → Bool) (change : SessionRow → SessionRow) (rows : List SessionRow)
    → ((r : SessionRow) → test r ≡ true → RowStep r (change r))
    → Evolves rows (update_where test change rows)
unfolding update_where
Evolves-update_where test change [] h = tt
Evolves-update_where test change (r ∷ rows) h =
    (RowStep-if (test r) r (change r) (h r), Evolves-update_where test change rows h)

-- Revoking touches only rows that are not revoked.
pub RowStep-revoke_at :
    (now : ℕ) (r : SessionRow) → is_null r.revoked_at ≡ true → RowStep r (revoke_at now r)
RowStep-revoke_at now r h = record {
  id = refl;
  user_id = refl;
  created_at = refl;
  revoked_at = open_row r.revoked_at h;
}
  where
    open_row : (o : Option ℕ) → is_null o ≡ true → Stays o (some now)
    open_row none h = tt
    open_row (some t) h = cc
