-- ===== src/Keys/Found.antt =====
-- The row that `Bundle` finds.
-- What holds of every row holds of the oldest of a selection, and so does the test.
use bully.Prelude.{
  All, Bool, Bool-cases, List, [], arith, false, inl, inr, ltb, not, refl, subst, true, ℕ, ◌&&◌,
  ◌||◌, ◌∙◌, ◌∷◌, ◌≡◌,
}
use bully.Db.{any_row, ok, select, update_where}
use bully.Db.Calls.{reply_inj}
use bully.Keys.{is_key}
use bully.Keys.Bundling.{is_free, oldest, oldest_of}
use bully.Keys.Spent.{IsSpent, any_row-update_where}
use bully.Prelude.Int.{beq_ℤ, beq_ℤ-refl, ℤ}
use bully.Tables.{PrekeyRow}

oldest-All :
    (P : PrekeyRow → Type 0) (r : PrekeyRow) (rows : List PrekeyRow)
    → P r
    → All P rows
    → P (oldest r rows)
unfolding oldest
oldest-All P r [] h hs = h
oldest-All P r (s ∷ rows) h hs = elim (Bool-cases (ltb s.created_at r.created_at)) [
  | inl older ↦ rw older (oldest-All P s rows hs.0 hs.1)
  | inr newer ↦ rw newer (oldest-All P r rows h hs.1)
]

select-All :
    (P : PrekeyRow → Type 0) (test : PrekeyRow → Bool) (rows : List PrekeyRow)
    → All P rows
    → All (λ r. P r × (test r ≡ true)) (select test rows)
unfolding select
select-All P test [] h = tt
select-All P test (r ∷ rows) h = elim (Bool-cases (test r)) [
  | inl hit ↦ rw hit ((h.0, hit), select-All P test rows h.1)
  | inr miss ↦ rw miss (select-All P test rows h.1)
]

oldest_of-All :
    (P : PrekeyRow → Type 0) (rows : List PrekeyRow) (row : PrekeyRow)
    → oldest_of rows ≡ ok row
    → All P rows
    → P row
unfolding oldest_of
oldest_of-All P [] row e h = cc
oldest_of-All P (r ∷ rows) row e h = subst P (reply_inj _ _ e) (oldest-All P r rows h.0 h.1)

any_row_marked :
    (u : ℕ) (k : ℤ) (rows : List PrekeyRow)
    → All
        (λ r. (not (is_key u k r) || r.used) ≡ true)
        (update_where (is_key u k) (λ r. record r { used = true }) rows)
unfolding update_where
any_row_marked u k [] = tt
any_row_marked u k (r ∷ rows) = (ground arith, any_row_marked u k rows)

-- A row that is selected stands in the table.
select-any_row :
    (seen test : PrekeyRow → Bool) (rows : List PrekeyRow)
    → any_row seen rows ≡ false
    → All (λ r. seen r ≡ false) (select test rows)
unfolding any_row select
select-any_row seen test [] h = tt
select-any_row seen test (r ∷ rows) h = elim (Bool-cases (test r)) [
  | inl hit ↦ rw hit (ground arith, select-any_row seen test rows (ground arith))
  | inr miss ↦ rw miss (select-any_row seen test rows (ground arith))
]

-- The key of a row that is read was not spent; marked, it is.
module _ (u : ℕ) (locked : PrekeyRow → Bool) (rows : List PrekeyRow) (row : PrekeyRow)
    (found : oldest_of (select (λ r. is_free u r && not (locked r)) rows) ≡ ok row) where
  found_free : is_free u row ≡ true
  found_free =
      let h =
        oldest_of-All _ _ row found
          (select-All (λ r. Unit {0}) (λ r. is_free u r && not (locked r)) rows (All_unit rows)) in
      ground (arith, h.1)
    where
      All_unit : (rs : List PrekeyRow) → All (λ r. Unit {0}) rs
      All_unit [] = tt
      All_unit (r ∷ rs) = (tt, All_unit rs)

  pub found_new : (k : ℤ) → row.key_id ≡ k → ¬ IsSpent u k rows
  found_new k e spent =
      let h = oldest_of-All _ _ row found (
        select-All (λ r. (not (is_key u k r) || r.used) ≡ true) (λ r. is_free u r && not (locked r))
          rows spent.1) in
      let free = found_free in
      let same : beq_ℤ row.key_id k ≡ true = rw e (beq_ℤ-refl k) in
      absurd (ground (arith, h.0, free, same))

  found_there : any_row (is_key u row.key_id) rows ≡ true
  found_there = elim (Bool-cases (any_row (is_key u row.key_id) rows)) [
    | inl there ↦ there
    | inr gone ↦
        let miss =
          oldest_of-All (λ r. is_key u row.key_id r ≡ false) _ row found
            (select-any_row (is_key u row.key_id) (λ r. is_free u r && not (locked r)) rows gone) in
        let free = found_free in
        let same = beq_ℤ-refl row.key_id in absurd (ground (arith, miss, free, same))
  ]

  pub marked-IsSpent :
      IsSpent u row.key_id (update_where (is_key u row.key_id) (λ r. record r { used = true }) rows)
  marked-IsSpent = (
    any_row-update_where u row.key_id (is_key u row.key_id) _ rows (λ r. refl) ∙ found_there,
    any_row_marked u row.key_id rows,
  )
