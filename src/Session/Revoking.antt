-- ===== src/Session/Revoking.antt =====
-- session.go, `Revoke` and `RevokeAllOthers`: a session ends others.
use bully.Prelude.{String, if◌then◌else◌, ltb, map, nat_beq, not, ℕ, ◌&&◌, ◌*◌, ◌+◌}
use bully.Db.{
  Call, DbM, Reply, Uuids, first_row, ok, pure, raise, second, select, session_too_new, statement,
  update_where, with_uuid, ◌>>=◌, ◌>>◌,
}
use bully.Session.{is_null, is_session, revoke_at}
use bully.Tables.{Db}

-- `MinAgeToKick`
abbrev pub min_age_to_kick : ℕ
min_age_to_kick = 24 * 3600 * second

unfoldable pub select_created_at : Uuids → String → Call → Db → Reply ℕ × Db
select_created_at pg session_id c db =
    with_uuid pg session_id db
      λ s. (first_row (map (λ r. r.created_at) (select (λ r. nat_beq r.id s) db.sessions)), db)

-- The test on `time.Since(createdAt)`.
unfoldable pub age_check : ℕ → ℕ → DbM (Unit {0})
age_check clock created_at =
    if ltb clock (created_at + min_age_to_kick) then raise session_too_new else pure tt

-- `Handler.assertCanKick`; `clock` is the instant that `time.Since` reads.
unfoldable pub assert_can_kick : Uuids → ℕ → String → DbM (Unit {0})
unfolding select_created_at age_check
assert_can_kick pg clock acting_session_id = do
  created_at ← statement (select_created_at pg acting_session_id)
  age_check clock created_at

unfoldable pub revoke_target : Uuids → String → String → Call → Db → Reply (Unit {0}) × Db
revoke_target pg user_id target_session_id c db = with_uuid pg target_session_id db λ s.
    with_uuid pg user_id db λ u. (
      ok tt,
      record db {
        sessions =
            update_where (λ r. is_session s u r && is_null r.revoked_at) (revoke_at c.now)
              db.sessions;
      },
    )

-- `Handler.Revoke`
unfoldable pub revoke : Uuids → ℕ → String → String → String → DbM (Unit {0})
unfolding assert_can_kick revoke_target
revoke pg clock user_id acting_session_id target_session_id = do
  assert_can_kick pg clock acting_session_id
  statement (revoke_target pg user_id target_session_id)

unfoldable pub revoke_others : Uuids → String → String → Call → Db → Reply (Unit {0}) × Db
revoke_others pg user_id acting_session_id c db = with_uuid pg user_id db λ u.
    with_uuid pg acting_session_id db λ s. (
      ok tt,
      record db {
        sessions =
            update_where (λ r. nat_beq r.user_id u && not (nat_beq r.id s) && is_null r.revoked_at)
              (revoke_at c.now) db.sessions;
      },
    )

-- `Handler.RevokeAllOthers`
unfoldable pub revoke_all_others : Uuids → ℕ → String → String → DbM (Unit {0})
unfolding assert_can_kick revoke_others
revoke_all_others pg clock user_id acting_session_id = do
  assert_can_kick pg clock acting_session_id
  statement (revoke_others pg user_id acting_session_id)
