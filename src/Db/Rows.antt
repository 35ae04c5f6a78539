-- ===== src/Db/Rows.antt =====
-- Laws of the row functions.
use bully.Prelude.{
  All, Bool, Bool-cases, List, [], arith, false, if◌then◌else◌, inl, inr, refl, true, ◌∷◌, ◌≡◌,
}
use bully.Db.{select, update_where}

module _ {ℓ} {A : Type ℓ} where
  All-if {κ} : (P : A → Type κ) (b : Bool) (r s : A) → P s → P r → P (if b then s else r)
  All-if P true r s hs hr = hs
  All-if P false r s hs hr = hr

  pub select-head :
      (test : A → Bool) (rows : List A) (r : A) (rest : List A)
      → select test rows ≡ r ∷ rest
      → test r ≡ true
  unfolding select
  select-head test [] r rest e = cc
  select-head test (x ∷ rows) r rest e = elim (Bool-cases (test x)) [
    | inl hit ↦ ground (arith, hit)
    | inr miss ↦ select-head test rows r rest (ground (arith, miss))
  ]

  -- A change that a test does not see goes past a selection by that test.
  pub select-update_where :
      (seen test : A → Bool) (change : A → A) (rows : List A)
      → ((r : A) → seen (change r) ≡ seen r)
      → select seen (update_where test change rows) ≡ update_where test change (select seen rows)
  unfolding select update_where
  select-update_where seen test change [] blind = refl
  select-update_where seen test change (r ∷ rows) blind =
      ground (arith, blind r, select-update_where seen test change rows blind)

  -- After an UPDATE whose change falsifies its test, no row passes the test.
  pub update_where-done :
      (test : A → Bool) (change : A → A) (rows : List A)
      → ((r : A) → test (change r) ≡ false)
      → All (λ r. test r ≡ false) (update_where test change rows)
  unfolding update_where
  update_where-done test change [] off = tt
  update_where-done test change (r ∷ rows) off =
      (ground (arith, off r), update_where-done test change rows off)

  -- Rows that the test leaves out, before and after, are the same rows.
  pub select-update_where_out :
      (kept test : A → Bool) (change : A → A) (rows : List A)
      → ((r : A) → test r ≡ true → (kept r ≡ false) × (kept (change r) ≡ false))
      → select kept (update_where test change rows) ≡ select kept rows
  unfolding select update_where
  select-update_where_out kept test change [] out = refl
  select-update_where_out kept test change (r ∷ rows) out =
      ground (arith, out r, select-update_where_out kept test change rows out)

  pub All-update_where {κ} :
      (P : A → Type κ) (test : A → Bool) (change : A → A) (rows : List A)
      → ((r : A) → P r → P (change r))
      → All P rows
      → All P (update_where test change rows)
  unfolding update_where
  All-update_where P test change [] keep h = tt
  All-update_where P test change (r ∷ rows) keep h = (
    All-if P (test r) r (change r) (keep r h.0) h.0,
    All-update_where P test change rows keep h.1,
  )
