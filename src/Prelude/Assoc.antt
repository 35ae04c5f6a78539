-- ===== src/Prelude/Assoc.antt =====
-- Go's maps with text keys, as association lists. The program never ranges over a map, so the order
-- of the entries does not matter.
use Prim.Native.String.{String}
use mathlib.Core.Path.{◌≡◌, refl}
use mathlib.Core.Option.{Option, none, some}
use mathlib.Core.List.{List, [], ◌∷◌}
use native.Mathlib.Omega.{arith}
use text.Mathlib.Text.{◌==◌}
use text.Mathlib.TextEquality.{eq_iff}
use bully.Prelude.Tests.{if◌then◌else◌}

abbrev pub Assoc {ℓ} : Type ℓ → Type ℓ
Assoc V = List (String × V)

module _ {ℓ} {V : Type ℓ} where
  -- entries[key]
  unfoldable pub lookup : String → Assoc V → Option V
  lookup key [] = none
  lookup key ((other, value) ∷ entries) = if other == key then some value else lookup key entries

  -- entries[key] = value
  pub insert : String → V → Assoc V → Assoc V
  insert key value [] = (key, value) ∷ []
  insert key value ((other, old) ∷ entries) =
      if other == key then (key, value) ∷ entries else (other, old) ∷ insert key value entries

  -- delete(entries, key)
  pub without : String → Assoc V → Assoc V
  without key [] = []
  without key ((other, value) ∷ entries) =
      let rest = without key entries in if other == key then rest else (other, value) ∷ rest

  pub lookup-insert :
      (key other : String) (value : V) (entries : Assoc V)
      → lookup other (insert key value entries)
        ≡ (if key == other then some value else lookup other entries)
  unfolding lookup insert
  lookup-insert key other value [] = refl
  lookup-insert key other value ((first, old) ∷ entries) = ground (
    arith,
    lookup-insert key other value entries,
    eq_iff first other,
    eq_iff first key,
    eq_iff key other,
  )

  pub lookup-without :
      (key other : String) (entries : Assoc V)
      → lookup other (without key entries) ≡ (if key == other then none else lookup other entries)
  unfolding lookup without
  lookup-without key other [] = ground arith
  lookup-without key other ((first, value) ∷ entries) = ground (
    arith,
    lookup-without key other entries,
    eq_iff first key,
    eq_iff first other,
    eq_iff key other,
  )
