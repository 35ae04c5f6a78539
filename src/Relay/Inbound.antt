-- ===== src/Relay/Inbound.antt =====
-- relay.go, `handleInbound`: what the server does with an envelope from the reader of a connection,
-- whose `FromUserID` is therefore the connection's user.
pub mod Rights
pub mod Recipients
use bully.Prelude.{Bool, List, String, [], false, if◌then◌else◌, not, suc, ℕ, ◌==◌, ◌||◌, ◌∷◌}
use bully.Convo.{is_member, member_ids}
use bully.Db.{Fate, Reply, Uuids, World, err, ok}
use bully.Relay.OfflineQueue.{Redis, enqueue}
use bully.Ws.Envelope.{Envelope, Json}
use bully.Ws.Hub.{Node, deliver}

module _ (json : Json) (pg : Uuids) (redis : Redis) where
  -- What a node's relay works on: the database, the hub, and the queues in Redis.
  pub record Server : Type 0 where
    pub world : World
    pub node : Node
    pub store : redis.Store

  -- What the outside decides during one call: the id that would be generated, the fate of the pipeline
  -- of `Enqueue`, and whether Redis takes the k-th publication.
  pub record Outside : Type 0 where
    pub fresh : String
    pub pipeline : Fate
    pub up : ℕ → Bool

  abbrev pub to_user : String → Envelope → Envelope
  to_user member env = record env { to_user_id = member }

  -- The loop over the members; the sender is passed over.
  unfoldable pub deliver_each : (ℕ → Bool) → ℕ → Envelope → List String → Node → Node
  deliver_each up k env [] n = n
  deliver_each up k env (member ∷ members) n =
      deliver_each up (suc k) env members
        (if member == env.from_user_id then n else deliver json (up k) (to_user member env) n)

  unfoldable pub on_members : Outside → Envelope → Server → Reply (List String) × World → Server
  unfolding deliver_each
  on_members o env s (err e, w) = record s { world = w }
  on_members o env s (ok members, w) = record s {
    world = w;
    node = deliver_each o.up 0 env members s.node;
  }

  unfoldable pub on_enqueued : Outside → Envelope → Server → Reply String × redis.Store → Server
  unfolding on_members
  on_enqueued o env s (err e, store) = record s { store = store }
  on_enqueued o env s (ok id, store) =
      let env' = record env { message_id = id } in
      on_members o env' (record s { store = store }) (member_ids pg env.conversation_id s.world)

  -- `err != nil || !isMember`
  abbrev pub is_yes : Reply Bool → Bool
  is_yes (err e) = false
  is_yes (ok b) = b

  unfoldable pub handle_signal : Outside → Envelope → Server → Server
  handle_signal o env s =
      let (r, w) = is_member pg env.conversation_id env.from_user_id s.world in
      if is_yes r
      then record s { world = w; node = deliver json (o.up 0) env s.node }
      else record s { world = w }

  unfoldable pub handle_message : Outside → Envelope → Server → Server
  unfolding on_enqueued
  handle_message o env s =
      let (r, w) = is_member pg env.conversation_id env.from_user_id s.world in
      let asked = record s { world = w } in
      if is_yes r
      then on_enqueued o env asked (enqueue json redis o.fresh o.pipeline env s.store)
      else asked

  -- `handleInbound`
  unfoldable pub handle_inbound : Outside → Envelope → Server → Server
  unfolding handle_signal handle_message
  handle_inbound o env s =
      if env.kind == "direct"
      then (if env.to_user_id == ""
          then s
          else record s { node = deliver json (o.up 0) env s.node })
      else if env.kind == "call_signal" || env.kind == "avatar"
      then (if env.to_user_id == "" then s else handle_signal o env s)
      else if not (env.kind == "message")
      then s
      else handle_message o env s
