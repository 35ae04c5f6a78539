-- ===== src/Tests/Routes.antt =====
-- Tests of the routes of the sessions.
use mathlib.Core.List.{filter_map}
use bully.Prelude.{
  All, List, String, [], arith, false, if◌then◌else◌, map, nat_beq, none, not, refl, some, take,
  true, ℕ, ◌&&◌, ◌++◌, ◌==◌, ◌∷◌, ◌≡◌,
}
use bully.Auth.{Claims, write_err}
use bully.Db.{
  Call, answer, arrived, continue, done, first_row, issue, pure, raise, recover, select, statement,
  update_where, with_uuid, ◌>>=◌,
}
use bully.Prelude.Int.{pos}
use bully.Relay.Inbound.{Server}
use bully.Relay.Offline.{deliver_offline, entered, serve, serve_claims, serve_valid}
use bully.Relay.Offline.Entrants.{serve-entered}
use bully.Relay.Offline.Resent.{backlog, deliver_offline-send}
use bully.Relay.OfflineQueue.{offline_queue_key}
use bully.Session.{
  inactivity_of, is_inactive, is_null, is_session, is_valid, is_valid_answer, set_policy,
  sweep_inactive, sweep_rows, touch, update_policy,
}
use bully.Session.Http.{
  answer_kick, answer_policy, change_policy, list_http, policy_http, response, revoke_all_http,
  revoke_http,
}
use bully.Session.Http.Answers.{
  has_policy, policy_http-done, revoke_all_http-done, revoke_http-done,
}
use bully.Session.Kicking.{is_other, is_spared}
use bully.Session.Policy.{InPolicyRange}
use bully.Session.Revoking.{
  age_check, assert_can_kick, revoke, revoke_all_others, revoke_others, revoke_target,
  select_created_at,
}
use bully.Session.Validity.{verdict}
use bully.Tables.{Db}
use bully.Tests.{codec, ids, letter, queues, texts_of, write_texts}
use bully.Tests.Hubs.{empty_node}
use bully.Tests.Sessions.{ann, call_at, calm, day, one_token, tables}
use bully.Ws.Conn.{Conn, send_buffer_size}
use bully.Ws.Hub.{local_conns}

revoked_over_http : (revoke_http ids day (some ann) "xxx" calm).0.status ≡ 204
unfolding revoke_http answer_kick revoke assert_can_kick select_created_at age_check revoke_target
    statement issue answer with_uuid select first_row pure ◌>>=◌ continue
revoked_over_http = refl

too_new_over_http : (revoke_http ids 5 (some ann) "xxx" calm).0 ≡ write_err 403 "session_too_new"
unfolding revoke_http answer_kick revoke assert_can_kick select_created_at age_check revoke_target
    statement issue answer with_uuid select first_row raise ◌>>=◌ continue
too_new_over_http = refl

revoke_http-done_example :
    let after = (revoke_http ids day (some ann) "xxx" calm).1.db.sessions in
    (c : Claims) × (u t : ℕ) × (some ann ≡ some c)
    × (ids.parse c.user_id ≡ some u)
    × (ids.parse "xxx" ≡ some t)
    × All (λ r. (is_session t u r && is_null r.revoked_at) ≡ false) after
    × (select (λ r. not (is_session t u r)) after
        ≡ select (λ r. not (is_session t u r)) calm.db.sessions)
revoke_http-done_example = revoke_http-done ids day (some ann) "xxx" calm revoked_over_http

all_revoked_over_http : (revoke_all_http ids day (some ann) calm).0.status ≡ 204
unfolding revoke_all_http answer_kick revoke_all_others assert_can_kick select_created_at age_check
    revoke_others statement issue answer with_uuid select first_row pure ◌>>=◌ continue
all_revoked_over_http = refl

revoke_all_http-done_example :
    let after = (revoke_all_http ids day (some ann) calm).1.db.sessions in
    (c : Claims) × (u s : ℕ) × (some ann ≡ some c)
    × (ids.parse c.user_id ≡ some u)
    × (ids.parse c.session_id ≡ some s)
    × All (λ r. is_other u s r ≡ false) after
    × (select (is_spared u s) after ≡ select (is_spared u s) calm.db.sessions)
revoke_all_http-done_example = revoke_all_http-done ids day (some ann) calm all_revoked_over_http

policy_over_http : (policy_http ids (some ann) (some (pos 7200)) calm).0.status ≡ 204
unfolding policy_http change_policy answer_policy set_policy update_policy statement issue answer
    with_uuid
policy_over_http = refl

list_over_http : (list_http ids none calm).0 ≡ response (write_err 401 "unauthorized")
unfolding list_http
list_over_http = refl

policy_http-done_example :
    (c : Claims) × (n u : ℕ) × (some ann ≡ some c)
    × (some (pos 7200) ≡ some (pos n))
    × (ids.parse c.user_id ≡ some u)
    × InPolicyRange n
    × All
        (λ r. has_policy u n r ≡ true)
        (policy_http ids (some ann) (some (pos 7200)) calm).1.db.users
policy_http-done_example = policy_http-done ids (some ann) (some (pos 7200)) calm policy_over_http

-- Two letters wait in the queue of the conversation 3.
abbrev two_waiting : queues.Store
two_waiting key =
    if key == offline_queue_key "xxx"
    then write_texts (texts_of letter) ∷ write_texts (texts_of letter) ∷ []
    else []

abbrev trio_db : Db
trio_db = record {
  users = tables.users;
  sessions = tables.sessions;
  members =
      record { conversation_id = 3; user_id = 1 }
      ∷ record { conversation_id = 3; user_id = 2 }
      ∷ [];
  prekeys = [];
  groups = [];
  group_members = [];
  conversations = [];
}

abbrev quiet : Conn
quiet = record { user_id = "x"; send = [] }

deliver_offline-send_example :
    let conversations = arrived (call_at 0 done).break_after (
      map (λ r. ids.print r.conversation_id) (select (λ r. nat_beq r.user_id 1) trio_db.members)) in
    (deliver_offline codec ids queues
      (λ k. true)
      "x"
      two_waiting
      quiet
      (record { db = trio_db; calls = call_at 0 done ∷ [] })).0.send
    ≡ take send_buffer_size (
        quiet.send
        ++ filter_map codec.marshal
            (backlog codec ids queues (λ k. true) 0 "x" conversations two_waiting))
deliver_offline-send_example =
    deliver_offline-send codec ids queues (λ k. true) "x" 1 two_waiting quiet trio_db
      (call_at 0 done) [] refl refl (omega arith)

abbrev gate : Server codec ids queues
gate = record { world = calm; node = empty_node; store = two_waiting }

let_in : (serve codec ids queues one_token (λ k. true) true 7 "t" gate).0 ≡ entered ann
unfolding serve serve_claims serve_valid is_valid sweep_inactive touch is_valid_answer statement
    issue answer with_uuid recover update_where select first_row sweep_rows inactivity_of
    is_inactive ◌>>=◌ continue
let_in = refl

serve-entered_example :
    let t = (serve codec ids queues one_token (λ k. true) true 7 "t" gate).1 in
    (sid u : ℕ) × (c d : Call) × (cs : List Call) × (one_token "t" ≡ some ann)
    × (ids.parse ann.session_id ≡ some sid)
    × (ids.parse ann.user_id ≡ some u)
    × (gate.world.calls ≡ c ∷ d ∷ cs)
    × (c.fate ≡ done)
    × (d.fate ≡ done)
    × (verdict sid u c.now gate.world.db ≡ true)
    × ((v : String)
        → local_conns v t.node.conns ≡ (
            if ann.user_id == v
            then local_conns ann.user_id gate.node.conns ++ 7 ∷ []
            else local_conns v gate.node.conns))
serve-entered_example =
    serve-entered codec ids queues one_token (λ k. true) true 7 "t" gate ann let_in
