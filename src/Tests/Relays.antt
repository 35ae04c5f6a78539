-- ===== src/Tests/Relays.antt =====
-- Tests of the queues and of the relay.
use bully.Prelude.{
  All, List, String, [], arith, eq_iff, if◌then◌else◌, length, none, not, refl, true, ℕ, ◌&&◌, ◌++◌,
  ◌==◌, ◌∷◌, ◌≡◌, ◌≤◌,
}
use bully.Convo.{is_member, member_ids, select_exists, select_members}
use bully.Db.{Call, any_row, done, lost, ok, select, statement, with_uuid}
use bully.Prelude.Assoc.{lookup}
use bully.Relay.Inbound.{Outside, Server, handle_inbound, handle_message, to_user}
use bully.Relay.Inbound.Recipients.{IsOwned, NoRepeats, handle_message-heap, listed}
use bully.Relay.Inbound.Rights.{Allowed, handle_inbound-Allowed}
use bully.Relay.OfflineQueue.{
  enqueue, for_conversation, last, offline_queue_key, offline_queue_max_len, with_id,
}
use bully.Relay.OfflineQueue.Bound.{IsBounded, enqueue-IsBounded}
use bully.Relay.OfflineQueue.Fifo.{IsReadable, Reads, enqueue-IsReadable, enqueue-for_conversation}
use bully.Tables.{Db}
use bully.Tests.{codec, ids, letter, queues}
use bully.Tests.Hubs.{busy_node}
use bully.Ws.Conn.{send}
use bully.Ws.Hub.{Conns, holds, local_conns}
use bully.Ws.Hub.Fanout.{Distinct, Holds}

abbrev empty_store : queues.Store
empty_store j = []

all-IsReadable : IsReadable codec queues empty_store
all-IsReadable c = tt

all-IsBounded : IsBounded codec queues empty_store
all-IsBounded c = omega arith

enqueue-for_conversation_example :
    let r = enqueue codec queues "m9" done letter empty_store in
    let stored = with_id "m9" letter in
    (r.0 ≡ ok stored.message_id)
    × (for_conversation codec queues "xxx" r.1 ≡ (
        if letter.conversation_id == "xxx"
        then last offline_queue_max_len
            (for_conversation codec queues "xxx" empty_store ++ stored ∷ [])
        else for_conversation codec queues "xxx" empty_store))
enqueue-for_conversation_example =
    enqueue-for_conversation codec queues "m9" "xxx" letter empty_store all-IsReadable

enqueue-IsBounded_example :
    length (
      queues.lrange (offline_queue_key "xxx") (enqueue codec queues "m9" lost letter empty_store).1)
    ≤ offline_queue_max_len
enqueue-IsBounded_example =
    enqueue-IsBounded codec queues "m9" lost letter empty_store all-IsBounded "xxx"

enqueue-IsReadable_example :
    All (Reads codec queues) (
      queues.lrange (offline_queue_key "xxx") (enqueue codec queues "m9" lost letter empty_store).1)
enqueue-IsReadable_example =
    enqueue-IsReadable codec queues "m9" lost letter empty_store all-IsReadable "xxx"

-- The conversation 3 has the users 1, 2 and 3 for members.
abbrev trio : Db
trio = record {
  users = [];
  sessions = [];
  members =
      record { conversation_id = 3; user_id = 1 }
      ∷ record { conversation_id = 3; user_id = 2 }
      ∷ record { conversation_id = 3; user_id = 3 }
      ∷ [];
  prekeys = [];
  groups = [];
  group_members = [];
  conversations = [];
}

abbrev answered_call : Call
answered_call = record { now = 0; fresh = 9; fate = done; break_after = none; pick = 0 }

abbrev server : Server codec ids queues
server = record {
  world = record { db = trio; calls = answered_call ∷ answered_call ∷ [] };
  node = busy_node;
  store = empty_store;
}

abbrev outside : Outside codec ids queues
outside = record { fresh = "m9"; pipeline = done; up = λ k. true }

handle_inbound-Allowed_example :
    Allowed codec ids queues letter server (handle_inbound codec ids queues outside letter server)
handle_inbound-Allowed_example = handle_inbound-Allowed codec ids queues outside letter server

sender_is_member :
    (is_member ids letter.conversation_id letter.from_user_id server.world).0 ≡ ok true
unfolding is_member select_exists statement with_uuid any_row
sender_is_member = refl

abbrev trio_ids : List String
trio_ids = "x" ∷ "xx" ∷ "xxx" ∷ []

trio_read :
    (member_ids ids letter.conversation_id
      (is_member ids letter.conversation_id letter.from_user_id server.world).1).0
    ≡ ok trio_ids
unfolding is_member select_exists member_ids select_members statement with_uuid select
trio_read = refl

trio-NoRepeats : NoRepeats trio_ids
trio-NoRepeats = (refl, (refl, (refl, tt)))

-- Only "xx" has a connection.
abbrev one_conn : Conns
one_conn = ("xx", 2 ∷ []) ∷ []

abbrev small_server : Server codec ids queues
small_server = record server { node = record busy_node { conns = one_conn } }

one-Distinct : (u : String) → Distinct (local_conns u one_conn)
unfolding local_conns lookup holds
one-Distinct u = ground arith

one_owner :
    (u v : String) (p : ℕ)
    → Holds p (local_conns u one_conn)
    → Holds p (local_conns v one_conn)
    → (u == v) ≡ true
unfolding local_conns lookup holds
one_owner u v p h k = ground (arith, eq_iff "xx" u, eq_iff "xx" v, eq_iff u v)

one-IsOwned : IsOwned one_conn
one-IsOwned = record { distinct = one-Distinct; owner = one_owner }

two_held : Holds 2 (local_conns "xx" one_conn)
unfolding local_conns lookup holds
two_held = refl

handle_message-heap_example :
    let t = handle_message codec ids queues outside letter small_server in
    let sent = with_id outside.fresh letter in
    (t.node.heap 2 ≡ (
      if listed "xx" trio_ids && not ("xx" == letter.from_user_id)
      then send codec (small_server.node.heap 2) (to_user codec ids queues "xx" sent)
      else small_server.node.heap 2))
    × (t.store ≡ (enqueue codec queues outside.fresh outside.pipeline letter small_server.store).1)
handle_message-heap_example =
    handle_message-heap codec ids queues outside letter small_server trio_ids "xx" 2
      sender_is_member refl trio_read trio-NoRepeats one-IsOwned two_held
