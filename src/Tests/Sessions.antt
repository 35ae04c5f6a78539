-- ===== src/Tests/Sessions.antt =====
-- Tests of the sessions and of the middleware.
use Prim.Native.String.{slice, len}
use text.Mathlib.Text.{starts_with}
use mathlib.Core.List.{Perm}
use bully.Prelude.{
  List, [], arith, false, if◌then◌else◌, map, none, refl, some, true, ℕ, ◌*◌, ◌-◌, ◌==◌, ◌∷◌, ◌≡◌,
  ◌⊎◌,
}
use bully.Auth.{Claims, Tokens, check_token, check_validity, middleware, passed}
use bully.Auth.Middleware.{middleware_sound}
use bully.Db.{
  Call, Fate, World, answer, arrived, continue, done, err, first_row, issue, lost, ok, pure, raise,
  recover, second, select, session_too_new, statement, update_where, with_uuid, ◌>>=◌,
}
use bully.Prelude.Int.{pos}
use bully.Session.{
  Info, inactivity_of, info_of, insert_by_last_seen, is_inactive, is_valid, is_valid_answer, list,
  order_by_last_seen, select_sessions, sweep_inactive, sweep_rows, touch,
}
use bully.Session.Kicking.{MayKick, kicking_needs_age}
use bully.Session.Listing.{IsRecentFirst, is_users_live, list_sound}
use bully.Session.Permanent.{op_set_policy, perform}
use bully.Session.Policy.{PoliciesInRange, perform-PoliciesInRange}
use bully.Session.Revoking.{
  age_check, assert_can_kick, revoke, revoke_all_others, revoke_others, revoke_target,
  select_created_at,
}
use bully.Session.Validity.{is_valid-verdict, verdict}
use bully.Tables.{Db, SessionRow}
use bully.Tests.{ids}

abbrev pub day : ℕ
day = 24 * 3600 * second

-- The session `id` of the user 1, last seen at the time `seen`.
abbrev session_of : ℕ → ℕ → SessionRow
session_of id seen = record {
  id = id;
  user_id = 1;
  device_name = "phone";
  platform = "android";
  created_at = 0;
  last_seen_at = seen;
  revoked_at = none;
}

-- The user 1 has the sessions 2 and 3, of which 3 was last seen long ago.
abbrev pub tables : Db
tables = record {
  users =
      record { id = 1; username = "ann"; password_hash = "h"; session_inactivity_seconds = 3600 }
      ∷ [];
  sessions = session_of 2 (2 * day) ∷ session_of 3 0 ∷ [];
  members = [];
  prekeys = [];
  groups = [];
  group_members = [];
  conversations = [];
}

abbrev pub call_at : ℕ → Fate → Call
call_at now fate = record { now = now; fresh = 9; fate = fate; break_after = none; pick = 0 }

abbrev pub calm : World
calm = record {
  db = tables;
  calls = call_at (2 * day) done ∷ call_at (2 * day) done ∷ call_at (2 * day) done ∷ [];
}

abbrev stormy : World
stormy = record { db = tables; calls = call_at (2 * day) lost ∷ call_at (2 * day) done ∷ [] }

policies_in_range : PoliciesInRange tables
policies_in_range = ((omega arith, omega arith), tt)

perform-PoliciesInRange_example :
    PoliciesInRange (perform ids (op_set_policy "x" (pos 7200)) calm).db
perform-PoliciesInRange_example =
    perform-PoliciesInRange ids (op_set_policy "x" (pos 7200)) calm policies_in_range

second_is_valid : (is_valid ids "xx" "x" calm).0 ≡ ok true
unfolding is_valid sweep_inactive touch is_valid_answer statement issue answer with_uuid recover
    update_where select first_row sweep_rows inactivity_of is_inactive ◌>>=◌ continue
second_is_valid = refl

third_is_swept : (is_valid ids "xxx" "x" calm).0 ≡ ok false
unfolding is_valid sweep_inactive touch is_valid_answer statement issue answer with_uuid recover
    update_where select first_row sweep_rows inactivity_of is_inactive ◌>>=◌ continue
third_is_swept = refl

is_valid-verdict_example :
    (is_valid ids "xxx" "x"
      (record { db = tables; calls = call_at (2 * day) done ∷ call_at (2 * day) done ∷ [] })).0
    ≡ ok (verdict 3 1 (2 * day) tables)
is_valid-verdict_example =
    is_valid-verdict ids "xxx" "x" 3 1 refl refl tables (call_at (2 * day) done)
      (call_at (2 * day) done) [] refl refl

kicking_needs_age_example :
    (((revoke ids day "x" "xx" "xxx" calm).1.db ≡ calm.db) ⊎ MayKick ids day "xx" calm.db)
    × (((revoke_all_others ids day "x" "xx" calm).1.db ≡ calm.db) ⊎ MayKick ids day "xx" calm.db)
kicking_needs_age_example = kicking_needs_age ids day "x" "xx" "xxx" calm

all_others_revoked : (revoke_all_others ids day "x" "xx" calm).0 ≡ ok tt
unfolding revoke_all_others assert_can_kick select_created_at age_check revoke_others statement
    issue answer with_uuid select first_row pure ◌>>=◌ continue
all_others_revoked = refl

third_revoked : (revoke ids day "x" "xx" "xxx" calm).0 ≡ ok tt
unfolding revoke assert_can_kick select_created_at age_check revoke_target statement issue answer
    with_uuid select first_row pure ◌>>=◌ continue
third_revoked = refl

too_new : (revoke ids (day - 1) "x" "xx" "xxx" calm).0 ≡ err session_too_new
unfolding revoke assert_can_kick select_created_at age_check revoke_target statement issue answer
    with_uuid select first_row raise ◌>>=◌ continue
too_new = refl

abbrev one_info : List Info
one_info = info_of ids "xx" (session_of 2 (2 * day)) ∷ []

one_listed : (list ids "x" "xx" calm).0 ≡ ok one_info
unfolding list sweep_inactive select_sessions order_by_last_seen insert_by_last_seen statement issue
    answer with_uuid select sweep_rows update_where is_inactive inactivity_of pure ◌>>=◌ continue
one_listed = refl

list_sound_example :
    (u : ℕ) × (a c : Call) × (cs : List Call) × (rows : List SessionRow) × (ids.parse "x" ≡ some u)
    × (calm.calls ≡ a ∷ c ∷ cs)
    × (one_info ≡ map (info_of ids "xx") (arrived c.break_after rows))
    × IsRecentFirst rows
    × Perm rows (select (is_users_live u (inactivity_of u calm.db.users) a.now) calm.db.sessions)
list_sound_example = list_sound ids "x" "xx" calm one_info one_listed

-- The only token that parses is `t`.
abbrev pub one_token : Tokens
one_token text =
    if text == "t"
    then some (record { user_id = "x"; username = "ann"; session_id = "xx" })
    else none

abbrev pub ann : Claims
ann = record { user_id = "x"; username = "ann"; session_id = "xx" }

let_through : (middleware ids one_token "Bearer t" calm).0 ≡ passed ann
unfolding middleware check_token check_validity is_valid sweep_inactive touch is_valid_answer
    statement issue answer with_uuid recover update_where select first_row sweep_rows inactivity_of
    is_inactive ◌>>=◌ continue
let_through = refl

middleware_sound_example :
    (starts_with "Bearer t" "Bearer " ≡ true)
    × (one_token (slice "Bearer t" (len "Bearer ") (len "Bearer t")) ≡ some ann)
    × (s u : ℕ) × (c d : Call) × (cs : List Call) × (ids.parse ann.session_id ≡ some s)
    × (ids.parse ann.user_id ≡ some u)
    × (calm.calls ≡ c ∷ d ∷ cs)
    × (c.fate ≡ done)
    × (d.fate ≡ done)
    × (verdict s u c.now calm.db ≡ true)
middleware_sound_example = middleware_sound ids one_token "Bearer t" calm ann let_through

-- A connection that breaks before the first row gives the empty list, and no error.
cut_list :
    (list ids "x" "xx" (record {
      db = tables;
      calls =
          call_at (2 * day) done
          ∷ record { now = 2 * day; fresh = 9; fate = done; break_after = some 0; pick = 0 }
          ∷ [];
    })).0
    ≡ ok []
unfolding list sweep_inactive select_sessions order_by_last_seen insert_by_last_seen statement issue
    answer with_uuid select sweep_rows update_where is_inactive inactivity_of pure ◌>>=◌ continue
cut_list = refl
