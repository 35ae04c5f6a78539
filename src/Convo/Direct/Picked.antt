-- ===== src/Convo/Direct/Picked.antt =====
-- Which row a SELECT with LIMIT 1 and without an order may take.
use bully.Prelude.{
  All, All-append, All-drop, Bool, Bool-cases, List, String, [], append_assoc, arith, drop, inl,
  inr, length, length-append, length-drop, length-take, map, refl, subst, suc, sym, take, true,
  zero, ℕ, ◌++◌, ◌<◌, ◌∷◌, ◌≡◌,
}
use bully.Db.{any_row, first_row, ok, rotate, select}
use bully.Db.Calls.{reply_inj}

module _ {ℓ} {A : Type ℓ} where
  -- A row of the table.
  abbrev pub In : A → List A → Type ℓ
  In r rows = (front back : List A) × (rows ≡ front ++ r ∷ back)

  All-In : (front rows : List A) → All (λ r. In r (front ++ rows)) rows
  All-In front [] = tt
  All-In front (r ∷ rows) = (
    (front, rows, refl),
    subst (λ xs. All (λ q. In q xs) rows) (append_assoc front (r ∷ []) rows)
        (All-In (front ++ r ∷ []) rows),
  )

  All-select {κ} :
      (P : A → Type κ) (test : A → Bool) (rows : List A)
      → All P rows
      → All (λ r. P r × (test r ≡ true)) (select test rows)
  unfolding select
  All-select P test [] h = tt
  All-select P test (r ∷ rows) h = elim (Bool-cases (test r)) [
    | inl hit ↦ rw hit ((h.0, hit), All-select P test rows h.1)
    | inr miss ↦ rw miss (All-select P test rows h.1)
  ]

  All-take {κ} : (P : A → Type κ) (n : ℕ) (xs : List A) → All P xs → All P (take n xs)
  All-take P zero xs h = tt
  All-take P (suc n) [] h = tt
  All-take P (suc n) (x ∷ xs) h = (h.0, All-take P n xs h.1)

  length-rotate : (n : ℕ) (xs : List A) → length (rotate n xs) ≡ length xs
  length-rotate n xs =
      omega (arith, length-append (drop n xs) (take n xs), length-take n xs, length-drop n xs)

  first_row-map {κ} :
      (P : A → Type κ) (id_of : A → String) (rows : List A) (id : String)
      → first_row (map id_of rows) ≡ ok id
      → All P rows
      → (r : A) × P r × (id ≡ id_of r)
  unfolding first_row
  first_row-map P id_of [] id e h = cc
  first_row-map P id_of (r ∷ rows) id e h = (r, h.0, sym (reply_inj _ _ e))

  first_row-some :
      (id_of : A → String) (rows : List A)
      → 0 < length rows
      → (id : String) × (first_row (map id_of rows) ≡ ok id)
  unfolding first_row
  first_row-some id_of [] h = absurd (omega arith)
  first_row-some id_of (r ∷ rows) h = (id_of r, refl)

  -- The row that is taken stands in the table and passes the test.
  pub picked :
      (test : A → Bool) (id_of : A → String) (n : ℕ) (rows : List A) (id : String)
      → first_row (map id_of (rotate n (select test rows))) ≡ ok id
      → (r : A) × (In r rows × (test r ≡ true)) × (id ≡ id_of r)
  picked test id_of n rows id e =
      let P = λ (r : A). In r rows × (test r ≡ true) in
      let all = All-select (λ r. In r rows) test rows (All-In [] rows) in
      first_row-map P id_of (rotate n (select test rows)) id e (
        All-append P (drop n (select test rows)) (take n (select test rows))
          (All-drop P n (select test rows) all) (All-take P n (select test rows) all))

  length-select :
      (test : A → Bool) (rows : List A) → any_row test rows ≡ true → 0 < length (select test rows)
  unfolding select any_row
  length-select test [] h = cc
  length-select test (r ∷ rows) h = elim (Bool-cases (test r)) [
    | inl hit ↦ rw hit (omega arith)
    | inr miss ↦ rw miss (length-select test rows (rw miss at h))
  ]

  -- If a row passes the test, one is taken.
  pub some_picked :
      (test : A → Bool) (id_of : A → String) (n : ℕ) (rows : List A)
      → any_row test rows ≡ true
      → (id : String) × (first_row (map id_of (rotate n (select test rows))) ≡ ok id)
  some_picked test id_of n rows h =
      first_row-some id_of (rotate n (select test rows))
        (omega (arith, length-rotate n (select test rows), length-select test rows h))

  any_row-In :
      (test : A → Bool) (r : A) (front back : List A)
      → test r ≡ true
      → any_row test (front ++ r ∷ back) ≡ true
  unfolding any_row
  any_row-In test r [] back h = rw h refl
  any_row-In test r (x ∷ front) back h = ground (arith, any_row-In test r front back h)

  pub picked-any_row :
      (test : A → Bool) (id_of : A → String) (n : ℕ) (rows : List A) (id : String)
      → first_row (map id_of (rotate n (select test rows))) ≡ ok id
      → any_row test rows ≡ true
  picked-any_row test id_of n rows id e =
      let (r, ((front, back, there), hit), named) = picked test id_of n rows id e in
      rw there (any_row-In test r front back hit)
