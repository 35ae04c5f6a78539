-- ===== src/Server/Others.antt =====
-- What the handlers of users and keys do to users and sessions: nothing.
use bully.Prelude.{
  Bool, Bool-cases, List, Option, String, [], inl, inr, nat_beq, none, not, refl, some, ◌==◌, ◌∷◌,
  ◌≡◌, ◌⊎◌,
}
use bully.Auth.{Claims}
use bully.Db.{
  Call, Fate, Reply, Uuids, World, any_row, db_failed, done, err, invalid_policy, lost, no_rows, ok,
  refused, session_too_new, statement,
}
use bully.Db.Moves.{
  Moves, Moves-bind, Moves-if, Moves-pure, Moves-statement, Moves-transaction, finish-moves,
  handle-moves, if-moves, with_uuid-moves,
}
use bully.Keys.{
  OneTimeKey, UploadRequest, insert_each, insert_key, insert_one_time, insert_signed, is_key,
  store_keys, upload, upload_request, upsert_signed,
}
use bully.Keys.Bundling.{
  bundle, bundle_begun, bundle_signed, commit_quietly, mark_used, select_one_time, select_signed,
  take_found, take_one_time,
}
use bully.Prelude.Int.{fits_int4, ℤ}
use bully.Server.Kept.{KeepsAccounts, accounts_kept}
use bully.Tables.{Db, PrekeyRow}
use bully.User.{Ilike, search, search_users, select_info}

Fate-cases : (f : Fate) → (f ≡ done) ⊎ ((f ≡ refused) ⊎ (f ≡ lost))
Fate-cases refused = inr (inl refl)
Fate-cases done = inl refl
Fate-cases lost = inr (inr refl)

module _ (pg : Uuids) where
  search-KeepsAccounts :
      (ilike : Ilike) (q : String) → Moves KeepsAccounts (statement (search_users pg ilike q))
  unfolding search_users
  search-KeepsAccounts ilike q = Moves-statement accounts_kept _ λ c db. (refl, refl)

  pub searched :
      (ilike : Ilike) (q : String) (w : World) → KeepsAccounts w.db (search pg ilike q w).1.db
  unfolding search
  searched ilike q w = elim (Bool-cases (q == "")) [
    | inl empty ↦ rw empty (refl, refl)
    | inr some_text ↦ rw some_text ((search-KeepsAccounts ilike q).moves w)
  ]

  pub get-KeepsAccounts : (id : String) → Moves KeepsAccounts (statement (select_info pg id))
  unfolding select_info
  get-KeepsAccounts id =
      Moves-statement accounts_kept _
        λ c db. with_uuid-moves accounts_kept pg id db _ λ u. (refl, refl)

  insert_key-KeepsAccounts : (row : PrekeyRow) (db : Db) → KeepsAccounts db (insert_key row db).1
  unfolding insert_key
  insert_key-KeepsAccounts row db =
      if-moves accounts_kept db (any_row (λ r. nat_beq r.id row.user_id) db.users) _ _ (refl, refl)
        (refl, refl)

  upsert-KeepsAccounts :
      (user_id : String) (n : ℤ) (public_key signature : String)
      → Moves KeepsAccounts (statement (upsert_signed pg user_id n public_key signature))
  unfolding upsert_signed
  upsert-KeepsAccounts user_id n public_key signature = Moves-statement accounts_kept _ λ c db.
      with_uuid-moves accounts_kept pg user_id db _ λ v.
        if-moves accounts_kept db (not (fits_int4 n)) _ _ (refl, refl)
          (if-moves accounts_kept db (any_row (is_key v n) db.prekeys) _ _ (refl, refl)
            (insert_key-KeepsAccounts _ db))

  insert_one_time-KeepsAccounts :
      (user_id : String) (key : OneTimeKey)
      → Moves KeepsAccounts (statement (insert_one_time pg user_id key))
  unfolding insert_one_time
  insert_one_time-KeepsAccounts user_id key = Moves-statement accounts_kept _ λ c db.
      with_uuid-moves accounts_kept pg user_id db _ λ v.
        if-moves accounts_kept db (not (fits_int4 key.key_id)) _ _ (refl, refl)
          (if-moves accounts_kept db (any_row (is_key v key.key_id) db.prekeys) _ _ (refl, refl)
            (insert_key-KeepsAccounts _ db))

  insert_each-KeepsAccounts :
      (user_id : String) (keys : List OneTimeKey)
      → Moves KeepsAccounts (insert_each pg user_id keys)
  unfolding insert_each
  insert_each-KeepsAccounts user_id [] = Moves-pure accounts_kept tt
  insert_each-KeepsAccounts user_id (key ∷ keys) =
      Moves-bind accounts_kept _ _ (insert_one_time-KeepsAccounts user_id key)
        λ _. insert_each-KeepsAccounts user_id keys

  store_keys-KeepsAccounts :
      (user_id : String) (req : UploadRequest) → Moves KeepsAccounts (store_keys pg user_id req)
  unfolding store_keys insert_signed
  store_keys-KeepsAccounts user_id req =
      Moves-bind accounts_kept _ _
        (Moves-if accounts_kept (req.signed_pub_key == "") _ _ (Moves-pure accounts_kept tt)
          (upsert-KeepsAccounts user_id req.signed_key_id req.signed_pub_key req.signature))
        λ _. insert_each-KeepsAccounts user_id req.one_time_keys

  pub uploaded :
      (claims : Claims) (decoded : Option UploadRequest) (w : World)
      → KeepsAccounts w.db (upload pg (some claims) decoded w).1.db
  unfolding upload upload_request
  uploaded claims none w = (refl, refl)
  uploaded claims (some req) w =
      (Moves-transaction accounts_kept _ (store_keys-KeepsAccounts claims.user_id req)).moves w

  select_signed-KeepsAccounts :
      (target : String) → Moves KeepsAccounts (statement (select_signed pg target))
  unfolding select_signed
  select_signed-KeepsAccounts target =
      Moves-statement accounts_kept _
        λ c db. with_uuid-moves accounts_kept pg target db _ λ u. (refl, refl)

  select_one_time-KeepsAccounts :
      (locked : PrekeyRow → Bool) (target : String)
      → Moves KeepsAccounts (statement (select_one_time pg locked target))
  unfolding select_one_time
  select_one_time-KeepsAccounts locked target =
      Moves-statement accounts_kept _
        λ c db. with_uuid-moves accounts_kept pg target db _ λ u. (refl, refl)

  mark_used-KeepsAccounts :
      (target : String) (k : ℤ) → Moves KeepsAccounts (statement (mark_used pg target k))
  unfolding mark_used
  mark_used-KeepsAccounts target k =
      Moves-statement accounts_kept _
        λ c db. with_uuid-moves accounts_kept pg target db _ λ u. (refl, refl)

  taken-KeepsAccounts :
      (target : String) (old : Db) (r : Reply PrekeyRow) (w : World)
      → KeepsAccounts old w.db
      → KeepsAccounts old (take_found pg target old r w).1.db
  unfolding take_found commit_quietly
  taken-KeepsAccounts target old (err e) w h = (refl, refl)
  taken-KeepsAccounts target old (ok row) w h = finish-moves accounts_kept old _ _ (
      accounts_kept.then_so old w.db (statement (mark_used pg target row.key_id) w).1.db h
        ((mark_used-KeepsAccounts target row.key_id).moves w))

  take_one_time-KeepsAccounts :
      (locked : PrekeyRow → Bool) (target : String) (w : World)
      → KeepsAccounts w.db (take_one_time pg locked target w).1.db
  unfolding take_one_time
  take_one_time-KeepsAccounts locked target w =
      taken-KeepsAccounts target w.db _ _ ((select_one_time-KeepsAccounts locked target).moves w)

  begun-KeepsAccounts :
      (locked : PrekeyRow → Bool) (target : String) (signed : String × String) (db : Db)
      (calls : List Call)
      → KeepsAccounts db (bundle_begun pg locked target signed db calls).1.db
  unfolding bundle_begun
  begun-KeepsAccounts locked target signed db [] = (refl, refl)
  begun-KeepsAccounts locked target signed db (c ∷ cs) = elim (Fate-cases c.fate) [
    | inl begun ↦
        rw begun (take_one_time-KeepsAccounts locked target (record { db = db; calls = cs }))
    | inr (inl turned_down) ↦ rw turned_down (refl, refl)
    | inr (inr unheard) ↦ rw unheard (refl, refl)
  ]

  signed-KeepsAccounts :
      (locked : PrekeyRow → Bool) (target : String) (r : Reply (String × String)) (w : World)
      → KeepsAccounts w.db (bundle_signed pg locked target r w).1.db
  unfolding bundle_signed
  signed-KeepsAccounts locked target (ok signed) w =
      begun-KeepsAccounts locked target signed w.db w.calls
  signed-KeepsAccounts locked target (err no_rows) w =
      begun-KeepsAccounts locked target ("", "") w.db w.calls
  signed-KeepsAccounts locked target (err db_failed) w = (refl, refl)
  signed-KeepsAccounts locked target (err session_too_new) w = (refl, refl)
  signed-KeepsAccounts locked target (err invalid_policy) w = (refl, refl)

  pub bundled_from :
      (locked : PrekeyRow → Bool) (target : String) (w : World)
      → KeepsAccounts w.db (bundle pg locked target w).1.db
  unfolding bundle
  bundled_from locked target w = elim (Bool-cases (target == "")) [
    | inl empty ↦ rw empty (refl, refl)
    | inr some_target ↦ rw some_target (
        handle-moves accounts_kept (statement (select_signed pg target))
          (bundle_signed pg locked target) w (select_signed-KeepsAccounts target)
          (signed-KeepsAccounts locked target))
  ]
