-- ===== src/Keys/Spent.antt =====
-- Keys that are used up, and what `Upload` does to them.
-- Two keys are told apart by their user and their number.
use bully.Prelude.{
  All, All-append, Bool, Bool-cases, List, Option, String, [], ap₂, arith, false, inl, inr, nat_beq,
  none, not, refl, some, true, ℕ, ◌&&◌, ◌++◌, ◌==◌, ◌||◌, ◌∙◌, ◌∷◌, ◌≡◌,
}
use bully.Auth.{Claims}
use bully.Db.{Uuids, World, any_row, statement, update_where}
use bully.Db.Moves.{
  Moves, Moves-bind, Moves-if, Moves-pure, Moves-statement, Moves-transaction, Preorder, if-moves,
  with_uuid-moves,
}
use bully.Db.Rows.{All-update_where}
use bully.Keys.{
  OneTimeKey, UploadRequest, insert_each, insert_key, insert_one_time, insert_signed, is_key,
  store_keys, upload, upload_request, upsert_signed,
}
use bully.Prelude.Int.{beq_ℤ, beq_ℤ-eq, fits_int4, ℤ}
use bully.Tables.{Db, PrekeyRow}

abbrev pub same_key : ℕ × ℤ → ℕ × ℤ → Bool
same_key (u, k) (v, l) = nat_beq u v && beq_ℤ k l

abbrev pub among : ℕ × ℤ → List (ℕ × ℤ) → Bool
among x [] = false
among x (y ∷ ys) = same_key y x || among x ys

abbrev pub AllDistinct : List (ℕ × ℤ) → Type 0
AllDistinct [] = Unit
AllDistinct (x ∷ xs) = (among x xs ≡ false) × AllDistinct xs

-- The table has the key, and only used.
abbrev pub IsSpent : ℕ → ℤ → List PrekeyRow → Type 0
IsSpent u k rows =
    (any_row (is_key u k) rows ≡ true) × All (λ r. (not (is_key u k r) || r.used) ≡ true) rows

abbrev pub KeepsSpent : Db → Db → Type 0
KeepsSpent a b = (u : ℕ) (k : ℤ) → IsSpent u k a.prekeys → IsSpent u k b.prekeys

pub keeps_spent : Preorder KeepsSpent
keeps_spent = record { same = λ a u k h. h; then_so = λ a b c f g u k h. g u k (f u k h) }

-- A change that keeps the number and uses no key up.
pub any_row-update_where :
    (u : ℕ) (k : ℤ) (test : PrekeyRow → Bool) (change : PrekeyRow → PrekeyRow)
    (rows : List PrekeyRow)
    → ((r : PrekeyRow) → is_key u k (change r) ≡ is_key u k r)
    → any_row (is_key u k) (update_where test change rows) ≡ any_row (is_key u k) rows
unfolding any_row update_where
any_row-update_where u k test change [] same = refl
any_row-update_where u k test change (r ∷ rows) same =
    ground (arith, same r, any_row-update_where u k test change rows same)

pub IsSpent-update_where :
    (u : ℕ) (k : ℤ) (test : PrekeyRow → Bool) (change : PrekeyRow → PrekeyRow)
    (rows : List PrekeyRow)
    → ((r : PrekeyRow) → is_key u k (change r) ≡ is_key u k r)
    → ((r : PrekeyRow) → r.used ≡ true → (change r).used ≡ true)
    → IsSpent u k rows
    → IsSpent u k (update_where test change rows)
IsSpent-update_where u k test change rows same keep h = (
  any_row-update_where u k test change rows same ∙ h.0,
  All-update_where _ test change rows (λ r old. ground (arith, same r, keep r)) h.1,
)

pub any_row-append :
    (u : ℕ) (k : ℤ) (row : PrekeyRow) (rows : List PrekeyRow)
    → any_row (is_key u k) rows ≡ true
    → any_row (is_key u k) (rows ++ row ∷ []) ≡ true
unfolding any_row
any_row-append u k row [] h = cc
any_row-append u k row (r ∷ rows) h = ground (arith, any_row-append u k row rows)

-- A row may be added whose key the table does not have.
IsSpent-append :
    (u : ℕ) (k : ℤ) (row : PrekeyRow) (rows : List PrekeyRow)
    → any_row (is_key row.user_id row.key_id) rows ≡ false
    → IsSpent u k rows
    → IsSpent u k (rows ++ row ∷ [])
IsSpent-append u k row rows new h = elim (Bool-cases (is_key u k row)) [
  | inl same ↦
      let eu : row.user_id ≡ u = ground arith in
      let ek : row.key_id ≡ k = beq_ℤ-eq row.key_id k (ground arith) in
      cc (ap₂ (λ v l. any_row (is_key v l) rows) eu ek, new, h.0)
  | inr other ↦
      (any_row-append u k row rows h.0, All-append _ rows (row ∷ []) h.1 (rw other refl, tt))
]

module _ (pg : Uuids) where
  insert_key-keeps :
      (row : PrekeyRow) (db : Db)
      → any_row (is_key row.user_id row.key_id) db.prekeys ≡ false
      → KeepsSpent db (insert_key row db).1
  unfolding insert_key
  insert_key-keeps row db new =
      if-moves keeps_spent db (any_row (λ r. nat_beq r.id row.user_id) db.users) _ _
        (λ u k h. IsSpent-append u k row db.prekeys new h) (λ u k h. h)

  upsert-Moves :
      (user_id : String) (n : ℤ) (public_key signature : String)
      → Moves KeepsSpent (statement (upsert_signed pg user_id n public_key signature))
  unfolding upsert_signed
  upsert-Moves user_id n public_key signature = Moves-statement keeps_spent _ λ c db.
      with_uuid-moves keeps_spent pg user_id db _ λ v.
        if-moves keeps_spent db (not (fits_int4 n)) _ _ (λ u k h. h)
          (elim (Bool-cases (any_row (is_key v n) db.prekeys)) [
            | inl old ↦ rw old λ u k h.
                IsSpent-update_where u k (is_key v n) _ db.prekeys (λ r. refl) (λ r used. used) h
            | inr new ↦ rw new (insert_key-keeps _ db new)
          ])

  one_time-Moves :
      (user_id : String) (key : OneTimeKey)
      → Moves KeepsSpent (statement (insert_one_time pg user_id key))
  unfolding insert_one_time
  one_time-Moves user_id key = Moves-statement keeps_spent _ λ c db.
      with_uuid-moves keeps_spent pg user_id db _ λ v.
        if-moves keeps_spent db (not (fits_int4 key.key_id)) _ _ (λ u k h. h)
          (elim (Bool-cases (any_row (is_key v key.key_id) db.prekeys)) [
            | inl old ↦ rw old λ u k h. h
            | inr new ↦ rw new (insert_key-keeps _ db new)
          ])

  each-Moves :
      (user_id : String) (keys : List OneTimeKey) → Moves KeepsSpent (insert_each pg user_id keys)
  unfolding insert_each
  each-Moves user_id [] = Moves-pure keeps_spent tt
  each-Moves user_id (key ∷ keys) =
      Moves-bind keeps_spent _ _ (one_time-Moves user_id key) λ _. each-Moves user_id keys

  store-Moves :
      (user_id : String) (req : UploadRequest) → Moves KeepsSpent (store_keys pg user_id req)
  unfolding store_keys insert_signed
  store-Moves user_id req =
      Moves-bind keeps_spent _ _
        (Moves-if keeps_spent (req.signed_pub_key == "") _ _ (Moves-pure keeps_spent tt)
          (upsert-Moves user_id req.signed_key_id req.signed_pub_key req.signature))
        λ _. each-Moves user_id req.one_time_keys

  -- No upload frees a spent key.
  pub upload-keeps :
      (claims : Option Claims) (decoded : Option UploadRequest) (w : World)
      → KeepsSpent w.db (upload pg claims decoded w).1.db
  unfolding upload upload_request
  upload-keeps none decoded w = λ u k h. h
  upload-keeps (some claims) none w = λ u k h. h
  upload-keeps (some claims) (some req) w =
      (Moves-transaction keeps_spent _ (store-Moves claims.user_id req)).moves w
