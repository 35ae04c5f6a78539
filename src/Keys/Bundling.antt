-- ===== src/Keys/Bundling.antt =====
-- keys/handlers.go, `Bundle`: the signed key of a user, and one one-time key.
-- What a read of the signed key scans: NULL is no text. LIMIT 1 has no order: the
-- database takes any of the rows.
use bully.Prelude.{
  Bool, List, Option, String, [], if◌then◌else◌, ltb, nat_beq, none, not, some, true, ℕ, ◌&&◌, ◌==◌,
  ◌∷◌,
}
use bully.Auth.{Response, write_err}
use bully.Db.{
  Call, Reply, Uuids, World, db_failed, done, err, lost, no_rows, ok, refused, rotate, select,
  statement, update_where, with_uuid,
}
use bully.Db.Tx.{finish}
use bully.Keys.{OneTimeKey, is_key}
use bully.Prelude.Int.{ℤ}
use bully.Tables.{Db, PrekeyRow}

unfoldable pub scan_signed : List PrekeyRow → Reply (String × String)
scan_signed [] = err no_rows
scan_signed (r ∷ rows) = elim r.signature [
  | none ↦ err db_failed
  | some signature ↦ ok (r.public_key, signature)
]

unfoldable pub select_signed : Uuids → String → Call → Db → Reply (String × String) × Db
unfolding scan_signed
select_signed pg target c db = with_uuid pg target db λ u.
    (scan_signed (rotate c.pick (select (λ r. nat_beq r.user_id u && r.is_signed) db.prekeys)), db)

-- ORDER BY created_at LIMIT 1
unfoldable pub oldest : PrekeyRow → List PrekeyRow → PrekeyRow
oldest r [] = r
oldest r (s ∷ rows) = oldest (if ltb s.created_at r.created_at then s else r) rows

unfoldable pub oldest_of : List PrekeyRow → Reply PrekeyRow
unfolding oldest
oldest_of [] = err no_rows
oldest_of (r ∷ rows) = ok (oldest r rows)

abbrev pub is_free : ℕ → PrekeyRow → Bool
is_free u r = nat_beq r.user_id u && not r.is_signed && not r.used

-- FOR UPDATE SKIP LOCKED: `locked` says which rows other transactions hold.
unfoldable pub select_one_time :
    Uuids → (PrekeyRow → Bool) → String → Call → Db → Reply PrekeyRow × Db
unfolding oldest_of
select_one_time pg locked target c db =
    with_uuid pg target db
      λ u. (oldest_of (select (λ r. is_free u r && not (locked r)) db.prekeys), db)

unfoldable pub mark_used : Uuids → String → ℤ → Call → Db → Reply (Unit {0}) × Db
mark_used pg target key_id c db = with_uuid pg target db λ u. (
  ok tt,
  record db { prekeys = update_where (is_key u key_id) (λ r. record r { used = true }) db.prekeys },
)

-- `_ = tx.Commit(ctx)`; after a failed UPDATE the transaction is aborted, and its commit rolls back.
unfoldable pub commit_quietly : Db → Reply (Unit {0}) → World → World
commit_quietly old r w = (finish old r w).1

-- The one-time key, or `none` if the read finds none or fails: then the transaction is rolled back.
unfoldable pub take_found :
    Uuids → String → Db → Reply PrekeyRow → World → Option OneTimeKey × World
unfolding mark_used commit_quietly
take_found pg target old (err e) w = (none, record w { db = old })
take_found pg target old (ok row) w =
    let (r, after) = statement (mark_used pg target row.key_id) w in
    (some (record { key_id = row.key_id; public_key = row.public_key }), commit_quietly old r after)

unfoldable pub take_one_time :
    Uuids → (PrekeyRow → Bool) → String → World → Option OneTimeKey × World
unfolding select_one_time take_found
take_one_time pg locked target w =
    let (r, after) = statement (select_one_time pg locked target) w in
    take_found pg target w.db r after

-- `bundleResponse`
pub record BundleResponse : Type 0 where
  pub signed_public_key : String
  pub signature : String
  pub one_time : Option OneTimeKey

pub data Bundle : Type 0 where
  failed : Response → Bundle
  bundled : BundleResponse → Bundle

unfoldable pub bundle_begun :
    Uuids → (PrekeyRow → Bool) → String → String × String → Db → List Call → Bundle × World
unfolding take_one_time
bundle_begun pg locked target signed db [] =
    (failed (write_err 500 "db error"), record { db = db; calls = [] })
bundle_begun pg locked target signed db (c ∷ cs) = elim c.fate [
  | refused ↦ (failed (write_err 500 "db error"), record { db = db; calls = cs })
  | lost ↦ (failed (write_err 500 "db error"), record { db = db; calls = cs })
  | done ↦
      let (key, after) = take_one_time pg locked target (record { db = db; calls = cs }) in
      (
        bundled (record { signed_public_key = signed.0; signature = signed.1; one_time = key }),
        after,
      )
]

unfoldable pub bundle_signed :
    Uuids → (PrekeyRow → Bool) → String → Reply (String × String) → World → Bundle × World
unfolding bundle_begun
bundle_signed pg locked target (ok signed) w = bundle_begun pg locked target signed w.db w.calls
bundle_signed pg locked target (err no_rows) w = bundle_begun pg locked target ("", "") w.db w.calls
bundle_signed pg locked target (err e) w = (failed (write_err 500 "db error"), w)

-- `Handler.Bundle`; `target` is the parameter `user_id` of the query.
unfoldable pub bundle : Uuids → (PrekeyRow → Bool) → String → World → Bundle × World
unfolding select_signed bundle_signed
bundle pg locked target w =
    if target == ""
    then (failed (write_err 400 "user_id required"), w)
    else let (r, after) = statement (select_signed pg target) w in
      bundle_signed pg locked target r after
