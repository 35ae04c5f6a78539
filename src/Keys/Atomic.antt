-- ===== src/Keys/Atomic.antt =====
-- An upload as a whole.
use bully.Prelude.{
  Bool-cases, List, Option, Option-cases, String, [], ap, arith, false, inl, inr, nat_beq, none,
  refl, some, subst, sym, true, ℕ, ◌++◌, ◌==◌, ◌∙◌, ◌∷◌, ◌≡◌, ◌≢◌, ◌⊎◌,
}
use bully.Auth.{Claims}
use bully.Db.{Call, Error, Reply, Uuids, World, any_row, err, ok, pure, statement, with_uuid}
use bully.Db.Calls.{bind_ok, statement_ok, with_uuid-some, with_uuid_ok}
use bully.Db.Committed.{transaction-AllOrNothing}
use bully.Keys.{
  OneTimeKey, UploadRequest, answer_upload, insert_each, insert_key, insert_one_time, insert_signed,
  is_key, store_keys, upload, upload_request, upsert_signed,
}
use bully.Keys.View.{
  KeyMap, entry_of, put, signed_over, view, view-append, view-update_where, view_absent,
  view_present, with_key, with_key_new, with_key_old, with_keys, with_signed, with_upload,
}
use bully.Prelude.Int.{fits_int4, ℤ}
use bully.Tables.{Db, PrekeyRow}

-- The tables differ in their prekeys at most, and the map of the keys is a function of what it was.
abbrev pub Stores : (KeyMap → KeyMap) → Db → Db → Type 0
Stores f a b =
    (rows : List PrekeyRow) × (b ≡ record a { prekeys = rows }) × (view rows ≡ f (view a.prekeys))

Stores-same : (db : Db) → Stores (λ m. m) db db
Stores-same db = (db.prekeys, refl, refl)

Stores-then :
    (f g : KeyMap → KeyMap) (a b c : Db) → Stores f a b → Stores g b c → Stores (λ m. g (f m)) a c
Stores-then f g a b c (rows, eb, vb) (after, ec, vc) = (
  after,
  ec ∙ ap (λ (d : Db). record d { prekeys = after }) eb,
  vc ∙ ap g (ap (λ (d : Db). view d.prekeys) eb ∙ vb),
)

module _ (pg : Uuids) (user_id : String) (u : ℕ) (eu : pg.parse user_id ≡ some u) where
  -- An INSERT that answers without error adds the key.
  inserted :
      (row : PrekeyRow) (db : Db)
      → any_row (is_key row.user_id row.key_id) db.prekeys ≡ false
      → (insert_key row db).0 ≡ ok tt
      → Stores (put row.user_id row.key_id (entry_of row)) db (insert_key row db).1
  unfolding insert_key
  inserted row db new h = elim (Bool-cases (any_row (λ r. nat_beq r.id row.user_id) db.users)) [
    | inl known ↦ rw known (db.prekeys ++ row ∷ [], refl, view-append row db.prekeys new)
    | inr unknown ↦ cc (rw unknown at h)
  ]

  one_time-Stores :
      (key : OneTimeKey) (c : Call) (db : Db)
      → (insert_one_time pg user_id key c db).0 ≡ ok tt
      → Stores (with_key u key) db (insert_one_time pg user_id key c db).1
  unfolding insert_one_time
  one_time-Stores key c db h =
      rw (with_uuid-some pg user_id db _ u eu) (elim (Bool-cases (fits_int4 key.key_id)) [
        | inr wide ↦ cc (rw (with_uuid-some pg user_id db _ u eu, wide) at h)
        | inl fits ↦ elim (Bool-cases (any_row (is_key u key.key_id) db.prekeys)) [
          | inl old ↦
              let (e, here) = view_present u key.key_id db.prekeys old in
              rw (fits, old) (db.prekeys, refl, with_key_old u key (view db.prekeys) e here)
          | inr new ↦
              let (rows, only, seen) =
                inserted _ db new (rw (with_uuid-some pg user_id db _ u eu, fits, new) at h) in
              rw (fits, new)
                (
                  rows,
                  only,
                  seen
                      ∙ with_key_new u key (view db.prekeys)
                          (view_absent u key.key_id db.prekeys new),
                )
        ]
      ])

  signed-Stores :
      (k : ℤ) (text signature : String) (c : Call) (db : Db)
      → (upsert_signed pg user_id k text signature c db).0 ≡ ok tt
      → Stores
          (λ m. put u k (signed_over text signature (m u k)) m)
          db
          (upsert_signed pg user_id k text signature c db).1
  unfolding upsert_signed
  signed-Stores k text signature c db h =
      rw (with_uuid-some pg user_id db _ u eu) (elim (Bool-cases (fits_int4 k)) [
        | inr wide ↦ cc (rw (with_uuid-some pg user_id db _ u eu, wide) at h)
        | inl fits ↦ elim (Bool-cases (any_row (is_key u k) db.prekeys)) [
          | inl old ↦ rw (fits, old) (_, refl, view-update_where u k text signature db.prekeys old)
          | inr new ↦
              let (rows, only, seen) =
                inserted _ db new (rw (with_uuid-some pg user_id db _ u eu, fits, new) at h) in
              rw (fits, new)
                (
                  rows,
                  only,
                  seen
                      ∙ ap (λ o. put u k (signed_over text signature o) (view db.prekeys))
                          (sym (view_absent u k db.prekeys new)),
                )
        ]
      ])

  each-Stores :
      (keys : List OneTimeKey) (w : World)
      → (insert_each pg user_id keys w).0 ≡ ok tt
      → Stores (with_keys u keys) w.db (insert_each pg user_id keys w).1.db
  unfolding insert_each pure
  each-Stores [] w h = Stores-same w.db
  each-Stores (key ∷ keys) w h =
      let (a, h1, h2, same) = bind_ok (statement (insert_one_time pg user_id key)) _ w tt h in
      let (c, cs, calls, fc, hc, after) = statement_ok _ w tt h1 in
      let next = (statement (insert_one_time pg user_id key) w).1 in
      subst (λ r. Stores (with_keys u (key ∷ keys)) w.db r.1.db) (sym same)
        (Stores-then (with_key u key) (with_keys u keys) w.db next.db _
          (subst (λ (x : World). Stores (with_key u key) w.db x.db) (sym after)
            (one_time-Stores key c w.db hc))
          (each-Stores keys next h2))

  insert_signed-Stores :
      (req : UploadRequest) (w : World)
      → (insert_signed pg user_id req w).0 ≡ ok tt
      → Stores (with_signed u req) w.db (insert_signed pg user_id req w).1.db
  unfolding insert_signed pure
  insert_signed-Stores req w h = elim (Bool-cases (req.signed_pub_key == "")) [
    | inl no_key ↦ rw (no_key, with_signed) (Stores-same w.db)
    | inr some_key ↦
        let (c, cs, calls, fc, hc, after) = statement_ok _ w tt (rw some_key at h) in
        rw (some_key, with_signed)
          (subst
            (λ (x : World).
              Stores
                (λ m.
                  put u req.signed_key_id
                    (signed_over req.signed_pub_key req.signature (m u req.signed_key_id)) m)
                w.db x.db)
            (sym after)
            (signed-Stores req.signed_key_id req.signed_pub_key req.signature c w.db hc))
  ]

  store-Stores :
      (req : UploadRequest) (w : World)
      → (store_keys pg user_id req w).0 ≡ ok tt
      → Stores (with_upload u req) w.db (store_keys pg user_id req w).1.db
  unfolding store_keys
  store-Stores req w h =
      let (a, h1, h2, same) = bind_ok (insert_signed pg user_id req) _ w tt h in
      let next = (insert_signed pg user_id req w).1 in
      subst (λ r. Stores (with_upload u req) w.db r.1.db) (sym same)
        (Stores-then (with_signed u req) (with_keys u req.one_time_keys) w.db next.db _
          (insert_signed-Stores req w h1) (each-Stores req.one_time_keys next h2))

-- A request without any key.
abbrev pub IsEmptyRequest : UploadRequest → Type 0
IsEmptyRequest req = ((req.signed_pub_key == "") ≡ true) × (req.one_time_keys ≡ [])

-- With a text of the user that is no UUID, only a request without any key is done.
module _ (pg : Uuids) (user_id : String) (no_uuid : pg.parse user_id ≡ none) where
  refuses : (f : ℕ → Reply (Unit {0}) × Db) (db : Db) → (with_uuid pg user_id db f).0 ≢ ok tt
  refuses f db h = let (u, eu, hu, same) = with_uuid_ok pg user_id db f tt h in cc

  each_refuses :
      (keys : List OneTimeKey) (w : World)
      → (insert_each pg user_id keys w).0 ≡ ok tt
      → (keys ≡ []) × ((insert_each pg user_id keys w).1.db ≡ w.db)
  unfolding insert_each insert_one_time pure
  each_refuses [] w h = (refl, refl)
  each_refuses (key ∷ keys) w h =
      let (a, h1, h2, same) = bind_ok (statement (insert_one_time pg user_id key)) _ w tt h in
      let (c, cs, calls, fc, hc, after) = statement_ok _ w tt h1 in absurd (refuses _ w.db hc)

  signed_refuses :
      (req : UploadRequest) (w : World)
      → (insert_signed pg user_id req w).0 ≡ ok tt
      → ((req.signed_pub_key == "") ≡ true) × ((insert_signed pg user_id req w).1.db ≡ w.db)
  unfolding insert_signed upsert_signed pure
  signed_refuses req w h = elim (Bool-cases (req.signed_pub_key == "")) [
    | inl no_key ↦ (no_key, rw no_key refl)
    | inr some_key ↦
        let (c, cs, calls, fc, hc, after) = statement_ok _ w tt (rw some_key at h) in
        absurd (refuses _ w.db hc)
  ]

  store_refuses :
      (req : UploadRequest) (w : World)
      → (store_keys pg user_id req w).0 ≡ ok tt
      → IsEmptyRequest req × ((store_keys pg user_id req w).1.db ≡ w.db)
  unfolding store_keys
  store_refuses req w h =
      let (a, h1, h2, same) = bind_ok (insert_signed pg user_id req) _ w tt h in
      let (no_signed, kept) = signed_refuses req w h1 in
      let (no_keys, kept_too) =
        each_refuses req.one_time_keys (insert_signed pg user_id req w).1 h2 in
      ((no_signed, no_keys), ap (λ r. r.1.db) same ∙ kept_too ∙ kept)

-- What the tables are after a program of `Upload` that ended without error.
abbrev pub Uploaded : Uuids → String → UploadRequest → Db → Db → Type 0
Uploaded pg user_id req old new =
    ((u : ℕ) × (pg.parse user_id ≡ some u) × Stores (with_upload u req) old new)
    ⊎ (IsEmptyRequest req × (new ≡ old))

store-Uploaded :
    (pg : Uuids) (user_id : String) (req : UploadRequest) (w : World)
    → (store_keys pg user_id req w).0 ≡ ok tt
    → Uploaded pg user_id req w.db (store_keys pg user_id req w).1.db
store-Uploaded pg user_id req w h = elim (Option-cases (pg.parse user_id)) [
  | inl no_uuid ↦ inr (store_refuses pg user_id no_uuid req w h)
  | inr (u, eu) ↦ inl (u, eu, store-Stores pg user_id u eu req w h)
]

answer_upload_failed : (e : Error) → (answer_upload (err e)).status ≢ 204
unfolding answer_upload
answer_upload_failed e = λ h. absurd (omega arith)

-- `Upload` is all or nothing: it leaves the tables as they were and does not answer 204, or it has the
-- claims and the request, and the tables differ in their prekeys at most, which, as a map from a user
-- and a number to a key, are the old map with the signed key of the request, if it has one, put over
-- the key with its number, whose marks stay, and then each one-time key put in, unused and unsigned, if
-- its number is free, all under the user of the claims; if the claims have no user, it had no key.
pub upload_atomic :
    (pg : Uuids) (claims : Option Claims) (decoded : Option UploadRequest) (w : World)
    → let t = upload pg claims decoded w in
      ((t.1.db ≡ w.db) × (t.0.status ≢ 204))
      ⊎ ((c : Claims) × (req : UploadRequest) × (claims ≡ some c)
          × (decoded ≡ some req)
          × Uploaded pg c.user_id req w.db t.1.db)
unfolding upload upload_request
upload_atomic pg none decoded w = inl (refl, λ h. absurd (omega arith))
upload_atomic pg (some c) none w = inl (refl, λ h. absurd (omega arith))
upload_atomic pg (some c) (some req) w =
    elim (transaction-AllOrNothing (store_keys pg c.user_id req) w) [
      | inl (e, erred, same) ↦ inl (same, rw erred (answer_upload_failed e))
      | inr (cs, a, stored, all_done, arrives) ↦ inr (
        c,
        req,
        refl,
        refl,
        subst (Uploaded pg c.user_id req w.db) (sym all_done)
            (store-Uploaded pg c.user_id req (record { db = w.db; calls = cs }) stored),
      )
    ]
