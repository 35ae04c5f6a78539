-- ===== src/Keys.antt =====
-- keys/handlers.go: the keys by which devices start a session with one another. `Upload` stores a
-- signed key and one-time keys; `Bundle`, in Bundling, hands them out.
pub mod Bundling
pub mod View
pub mod Atomic
pub mod Spent
pub mod Found
pub mod Settled
pub mod Once
pub mod Taken
pub mod Outcome
use bully.Prelude.{
  Bool, List, Option, String, [], false, if◌then◌else◌, nat_beq, none, not, some, true, ℕ, ◌&&◌,
  ◌++◌, ◌==◌, ◌∷◌,
}
use bully.Auth.{Claims, Response, nothing, write_err}
use bully.Db.{
  Call, DbM, Reply, Uuids, World, any_row, db_failed, err, ok, pure, statement, update_where,
  with_uuid, ◌>>=◌,
}
use bully.Db.Tx.{transaction}
use bully.Prelude.Int.{beq_ℤ, fits_int4, ℤ}
use bully.Tables.{Db, PrekeyRow}

pub record OneTimeKey : Type 0 where
  pub key_id : ℤ
  pub public_key : String

-- `uploadRequest`
pub record UploadRequest : Type 0 where
  pub signed_key_id : ℤ
  pub signed_pub_key : String
  pub signature : String
  pub one_time_keys : List OneTimeKey

-- The row of a user and a number, of which UNIQUE (user_id, key_id) leaves one.
abbrev pub is_key : ℕ → ℤ → PrekeyRow → Bool
is_key u k r = nat_beq r.user_id u && beq_ℤ r.key_id k

-- Both INSERTs, if there is no conflict: the column takes 32 bits, and the user must exist.
unfoldable pub insert_key : PrekeyRow → Db → Reply (Unit {0}) × Db
insert_key row db =
    if any_row (λ r. nat_beq r.id row.user_id) db.users
    then (ok tt, record db { prekeys = db.prekeys ++ row ∷ [] })
    else (err db_failed, db)

-- The upsert of the signed key; on a conflict neither `is_signed` nor `used` changes.
unfoldable pub upsert_signed :
    Uuids → String → ℤ → String → String → Call → Db → Reply (Unit {0}) × Db
unfolding insert_key
upsert_signed pg user_id key_id public_key signature c db = with_uuid pg user_id db λ u.
    if not (fits_int4 key_id)
    then (err db_failed, db)
    else if any_row (is_key u key_id) db.prekeys
    then (
      ok tt,
      record db {
        prekeys =
            update_where (is_key u key_id)
              (λ r. record r { public_key = public_key; signature = some signature }) db.prekeys;
      },
    )
    else insert_key
        (record {
          user_id = u;
          key_id = key_id;
          public_key = public_key;
          signature = some signature;
          used = false;
          is_signed = true;
          created_at = c.now;
        })
        db

-- ON CONFLICT DO NOTHING
unfoldable pub insert_one_time : Uuids → String → OneTimeKey → Call → Db → Reply (Unit {0}) × Db
unfolding insert_key
insert_one_time pg user_id k c db = with_uuid pg user_id db λ u.
    if not (fits_int4 k.key_id)
    then (err db_failed, db)
    else if any_row (is_key u k.key_id) db.prekeys
    then (ok tt, db)
    else insert_key
        (record {
          user_id = u;
          key_id = k.key_id;
          public_key = k.public_key;
          signature = none;
          used = false;
          is_signed = false;
          created_at = c.now;
        })
        db

-- The loop over the one-time keys; the first error ends it.
unfoldable pub insert_each : Uuids → String → List OneTimeKey → DbM (Unit {0})
insert_each pg user_id [] = pure tt
insert_each pg user_id (k ∷ keys) =
    statement (insert_one_time pg user_id k) >>= λ _. insert_each pg user_id keys

unfoldable pub insert_signed : Uuids → String → UploadRequest → DbM (Unit {0})
insert_signed pg user_id req =
    if req.signed_pub_key == ""
    then pure tt
    else statement (upsert_signed pg user_id req.signed_key_id req.signed_pub_key req.signature)

unfoldable pub store_keys : Uuids → String → UploadRequest → DbM (Unit {0})
store_keys pg user_id req =
    insert_signed pg user_id req >>= λ _. insert_each pg user_id req.one_time_keys

unfoldable pub answer_upload : Reply (Unit {0}) → Response
answer_upload (ok t) = record { status = 204; body = nothing }
answer_upload (err e) = write_err 500 "db error"

unfoldable pub upload_request : Uuids → Claims → Option UploadRequest → World → Response × World
unfolding answer_upload
upload_request pg claims none w = (write_err 400 "invalid body", w)
upload_request pg claims (some req) w =
    let (r, after) = transaction (store_keys pg claims.user_id req) w in (answer_upload r, after)

-- `Handler.Upload`; the request is what the body decodes to, if it does.
unfoldable pub upload : Uuids → Option Claims → Option UploadRequest → World → Response × World
unfolding upload_request
upload pg none decoded w = (write_err 401 "unauthorized", w)
upload pg (some claims) decoded w = upload_request pg claims decoded w
