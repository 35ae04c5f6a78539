-- ===== src/Ws/Hub/Laws.antt =====
-- The map of connections: what `Register` and `Unregister` do to it.
use bully.Prelude.{
  Bool-cases, List, String, [], arith, eq_iff, false, if◌then◌else◌, inl, inr, length_zero, refl,
  some, ℕ, ◌++◌, ◌==◌, ◌∙◌, ◌∷◌, ◌≡◌, ◌≢◌,
}
use bully.Prelude.Assoc.{insert, lookup, lookup-insert, lookup-without, without}
use bully.Ws.Hub.{Conns, cut, drop_empty, holds, local_conns, register, unregister}

local_conns-insert :
    (u v : String) (cs : List ℕ) (conns : Conns)
    → local_conns v (insert u cs conns) ≡ (if u == v then cs else local_conns v conns)
unfolding local_conns
local_conns-insert u v cs conns = ground (arith, lookup-insert u v cs conns)

local_conns-without :
    (u v : String) (conns : Conns)
    → local_conns v (without u conns) ≡ (if u == v then [] else local_conns v conns)
unfolding local_conns
local_conns-without u v conns = ground (arith, lookup-without u v conns)

-- `Register` adds the connection after the user's others, and touches no other user.
pub local_conns-register :
    (u v : String) (c : ℕ) (conns : Conns)
    → local_conns v (register u c conns)
      ≡ (if u == v then local_conns u conns ++ c ∷ [] else local_conns v conns)
unfolding register
local_conns-register u v c conns = local_conns-insert u v (local_conns u conns ++ c ∷ []) conns

cut_not_held : (c : ℕ) (cs : List ℕ) → holds c cs ≡ false → cut c cs ≡ cs
unfolding cut holds
cut_not_held c [] h = refl
cut_not_held c (d ∷ cs) h = ground (arith, cut_not_held c cs)

local_conns-drop_empty :
    (u v : String) (conns : Conns) → local_conns v (drop_empty u conns) ≡ local_conns v conns
unfolding drop_empty
local_conns-drop_empty u v conns =
    ground (arith, local_conns-without u v conns, length_zero (local_conns u conns), eq_iff u v)

-- `Unregister` takes out one occurrence of the connection, if there is one, and touches no other user.
pub local_conns-unregister :
    (u v : String) (c : ℕ) (conns : Conns)
    → local_conns v (unregister u c conns)
      ≡ (if u == v then cut c (local_conns u conns) else local_conns v conns)
unfolding unregister
local_conns-unregister u v c conns =
    local_conns-drop_empty u v _ ∙ elim (Bool-cases (holds c (local_conns u conns))) [
      | inl held ↦ rw held (local_conns-insert u v (cut c (local_conns u conns)) conns)
      | inr missing ↦
          rw (missing, cut_not_held c (local_conns u conns) missing) (ground (arith, eq_iff u v))
    ]

-- No key of the map leads to the empty slice.
abbrev pub NoEmpty : Conns → Type 0
NoEmpty conns = (v : String) → lookup v conns ≢ some []

append-ne-nil : (cs : List ℕ) (c : ℕ) → cs ++ c ∷ [] ≢ []
append-ne-nil [] c = λ e. cc
append-ne-nil (d ∷ cs) c = λ e. cc

pub register-NoEmpty :
    (u : String) (c : ℕ) (conns : Conns) → NoEmpty conns → NoEmpty (register u c conns)
unfolding register
register-NoEmpty u c conns h v = ground (
  arith,
  lookup-insert u v (local_conns u conns ++ c ∷ []) conns,
  append-ne-nil (local_conns u conns) c,
  h v,
)

drop_empty-NoEmpty :
    (u : String) (conns : Conns)
    → ((v : String) → (u == v) ≡ false → lookup v conns ≢ some [])
    → NoEmpty (drop_empty u conns)
unfolding drop_empty local_conns
drop_empty-NoEmpty u conns h v = ground (arith, lookup-without u v conns, h v, eq_iff u v)

-- If no key of the map leads to the empty slice, none does after `Unregister`.
pub unregister-NoEmpty :
    (u : String) (c : ℕ) (conns : Conns) → NoEmpty conns → NoEmpty (unregister u c conns)
unfolding unregister
unregister-NoEmpty u c conns h =
    drop_empty-NoEmpty u _
      λ v e. ground (arith, lookup-insert u v (cut c (local_conns u conns)) conns, h v)
