-- ===== src/Session.antt =====
-- session/session.go: the sessions of a user, one for each device that has logged in.
pub mod Rows
pub mod Permanent
pub mod Validity
pub mod Kicking
pub mod Policy
pub mod Listing
pub mod Http
pub mod Revoking
use bully.Prelude.{
  Bool, List, Option, String, [], false, if◌then◌else◌, leb, ltb, map, nat_beq, none, not, some,
  true, ℕ, ◌&&◌, ◌*◌, ◌++◌, ◌+◌, ◌==◌, ◌||◌, ◌∷◌,
}
use bully.Db.{
  Call, DbM, Reply, Uuids, any_row, arrived, db_failed, err, first_row, invalid_policy, no_rows, ok,
  pure, raise, recover, second, select, statement, update_where, with_uuid, ◌>>=◌, ◌>>◌,
}
use bully.Prelude.Int.{ltb_ℤ, pos, pos_part, ℤ}
use bully.Tables.{Db, SessionRow, UserRow}

-- `MinInactivitySeconds`
abbrev pub min_inactivity_seconds : ℕ
min_inactivity_seconds = 3600

-- `MaxInactivitySeconds`
abbrev pub max_inactivity_seconds : ℕ
max_inactivity_seconds = 365 * 24 * 3600

-- `INSERT INTO sessions (user_id, device_name, platform) VALUES ($1, $2, $3) RETURNING id`: the rest
-- are the defaults of the table. The user must exist, and the new id be new.
unfoldable pub insert_session : Uuids → String → String → String → Call → Db → Reply String × Db
insert_session pg user_id device_name platform c db = with_uuid pg user_id db λ u.
    if not (any_row (λ r. nat_beq r.id u) db.users)
      || any_row (λ s. nat_beq s.id c.fresh) db.sessions
    then (err db_failed, db)
    else (
      ok (pg.print c.fresh),
      record db {
        sessions =
            db.sessions
            ++ record {
              id = c.fresh;
              user_id = u;
              device_name = device_name;
              platform = platform;
              created_at = c.now;
              last_seen_at = c.now;
              revoked_at = none;
            }
              ∷ [];
      },
    )

-- `Handler.Create`
unfoldable pub create : Uuids → String → String → String → DbM String
create pg user_id device_name platform = statement (insert_session pg user_id device_name platform)

abbrev pub is_null {ℓ} : {A : Type ℓ} → Option A → Bool
is_null none = true
is_null (some a) = false

-- `SELECT session_inactivity_seconds FROM users WHERE id = $1`, as the value in the middle of another
-- statement: NULL without such a user.
unfoldable pub inactivity_of : ℕ → List UserRow → Option ℕ
inactivity_of u [] = none
inactivity_of u (r ∷ rows) =
    if nat_beq r.id u then some r.session_inactivity_seconds else inactivity_of u rows

-- `last_seen_at < now() - make_interval(secs => …)`; a comparison with NULL is not true.
unfoldable pub is_inactive : Option ℕ → ℕ → SessionRow → Bool
is_inactive none now s = false
is_inactive (some seconds) now s = ltb (s.last_seen_at + seconds * second) now

abbrev pub revoke_at : ℕ → SessionRow → SessionRow
revoke_at now s = record s { revoked_at = some now }

unfoldable pub sweep_rows : ℕ → Option ℕ → ℕ → List SessionRow → List SessionRow
unfolding update_where is_inactive
sweep_rows u seconds now =
    update_where (λ s. nat_beq s.user_id u && is_null s.revoked_at && is_inactive seconds now s)
      (revoke_at now)

-- `Handler.sweepInactive`
unfoldable pub sweep_inactive : Uuids → String → DbM (Unit {0})
sweep_inactive pg user_id = statement λ c db.
    with_uuid pg user_id db λ u.
      (ok tt, record db { sessions = sweep_rows u (inactivity_of u db.users) c.now db.sessions })

abbrev pub is_session : ℕ → ℕ → SessionRow → Bool
is_session s u r = nat_beq r.id s && nat_beq r.user_id u

-- `UPDATE sessions SET last_seen_at = now() WHERE id = $1 AND user_id = $2 RETURNING (revoked_at IS NOT NULL)`
unfoldable pub touch : Uuids → String → String → Call → Db → Reply Bool × Db
touch pg session_id user_id c db = with_uuid pg session_id db λ s. with_uuid pg user_id db λ u.
    let rows = select (is_session s u) db.sessions in
    (
      first_row (map (λ r. not (is_null r.revoked_at)) rows),
      record db {
        sessions =
            update_where (is_session s u) (λ r. record r { last_seen_at = c.now }) db.sessions;
      },
    )

-- `errors.Is(err, pgx.ErrNoRows)` turns the missing row into an answer.
unfoldable pub is_valid_answer : Reply Bool → Reply Bool
is_valid_answer (ok revoked) = ok (not revoked)
is_valid_answer (err no_rows) = ok false
is_valid_answer (err e) = err e

-- `Handler.IsValid`
unfoldable pub is_valid : Uuids → String → String → DbM Bool
unfolding sweep_inactive touch recover
is_valid pg session_id user_id = do
  sweep_inactive pg user_id
  recover is_valid_answer (statement (touch pg session_id user_id))

pub record Info : Type 0 where
  pub id : String
  pub device_name : String
  pub platform : String
  pub created_at : ℕ
  pub last_seen_at : ℕ
  pub current : Bool
  pub revoked_at : Option ℕ

-- ORDER BY last_seen_at DESC; SQL leaves the order of equal times open.
unfoldable pub insert_by_last_seen : SessionRow → List SessionRow → List SessionRow
insert_by_last_seen s [] = s ∷ []
insert_by_last_seen s (r ∷ rows) =
    if leb r.last_seen_at s.last_seen_at then s ∷ r ∷ rows else r ∷ insert_by_last_seen s rows

unfoldable pub order_by_last_seen : List SessionRow → List SessionRow
order_by_last_seen [] = []
order_by_last_seen (r ∷ rows) = insert_by_last_seen r (order_by_last_seen rows)

abbrev pub is_listed : ℕ → SessionRow → Bool
is_listed u r = nat_beq r.user_id u && is_null r.revoked_at

unfoldable pub select_sessions : Uuids → String → Call → Db → Reply (List SessionRow) × Db
select_sessions pg user_id c db =
    with_uuid pg user_id db
      λ u. (ok (arrived c.break_after (order_by_last_seen (select (is_listed u) db.sessions))), db)

-- A scanned row; `Current` marks the session that asks.
unfoldable pub info_of : Uuids → String → SessionRow → Info
info_of pg current_session_id r = record {
  id = pg.print r.id;
  device_name = r.device_name;
  platform = r.platform;
  created_at = r.created_at;
  last_seen_at = r.last_seen_at;
  current = pg.print r.id == current_session_id;
  revoked_at = r.revoked_at;
}

-- `Handler.List`
unfoldable pub list : Uuids → String → String → DbM (List Info)
unfolding sweep_inactive
list pg user_id current_session_id = do
  sweep_inactive pg user_id
  rows ← statement (select_sessions pg user_id)
  pure (map (info_of pg current_session_id) rows)

-- `Handler.GetPolicy`
unfoldable pub get_policy : Uuids → String → DbM ℕ
get_policy pg user_id = statement λ c db. with_uuid pg user_id db λ u. (
  first_row (map (λ r. r.session_inactivity_seconds) (select (λ r. nat_beq r.id u) db.users)),
  db,
)

unfoldable pub update_policy : Uuids → String → ℕ → Call → Db → Reply (Unit {0}) × Db
update_policy pg user_id seconds c db = with_uuid pg user_id db λ u. (
  ok tt,
  record db {
    users =
        update_where (λ r. nat_beq r.id u) (λ r. record r { session_inactivity_seconds = seconds })
          db.users;
  },
)

-- `Handler.SetPolicy`; past its guard the number is not negative.
unfoldable pub set_policy : Uuids → String → ℤ → DbM (Unit {0})
unfolding update_policy
set_policy pg user_id seconds =
    if ltb_ℤ seconds (pos min_inactivity_seconds) || ltb_ℤ (pos max_inactivity_seconds) seconds
    then raise invalid_policy
    else statement (update_policy pg user_id (pos_part seconds))
