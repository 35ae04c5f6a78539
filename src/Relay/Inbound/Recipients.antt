-- ===== src/Relay/Inbound/Recipients.antt =====
-- Whom a message of a conversation reaches on this node.
use bully.Prelude.{
  Bool, Bool-cases, List, String, [], ap, arith, eq_iff, false, if◌then◌else◌, inl, inr, not, refl,
  subst, suc, sym, true, ℕ, ◌&&◌, ◌==◌, ◌||◌, ◌∙◌, ◌∷◌, ◌≡◌,
}
use bully.Convo.{is_member, member_ids}
use bully.Db.{Uuids, done, ok}
use bully.Relay.Inbound.{
  Outside, Server, deliver_each, handle_message, is_yes, on_enqueued, on_members, to_user,
}
use bully.Relay.OfflineQueue.{Redis, enqueue, with_id}
use bully.Relay.OfflineQueue.Bound.{enqueue_id}
use bully.Ws.Conn.{send}
use bully.Ws.Envelope.{Envelope, Json}
use bully.Ws.Hub.{Conns, Node, deliver, holds, local_conns}
use bully.Ws.Hub.Fanout.{Distinct, Holds, deliver_lem}

-- A connection stands once, and under one user.
pub record IsOwned (conns : Conns) : Type 0 where
  pub distinct : (u : String) → Distinct (local_conns u conns)
  pub owner :
      (u v : String) (p : ℕ)
      → Holds p (local_conns u conns)
      → Holds p (local_conns v conns)
      → (u == v) ≡ true

abbrev pub listed : String → List String → Bool
listed v [] = false
listed v (m ∷ ms) = m == v || listed v ms

abbrev pub NoRepeats : List String → Type 0
NoRepeats [] = Unit
NoRepeats (m ∷ ms) = (listed m ms ≡ false) × NoRepeats ms

with_id_again :
    (fresh : String) (env : Envelope)
    → record env { message_id = (with_id fresh env).message_id } ≡ with_id fresh env
unfolding with_id
with_id_again fresh env = ground arith

from-with_id :
    (fresh : String) (env : Envelope) → (with_id fresh env).from_user_id ≡ env.from_user_id
unfolding with_id
from-with_id fresh env = ground arith

module _ (json : Json) (pg : Uuids) (redis : Redis) where
  -- A connection of `v` is held by the recipient exactly if that is `v`.
  held_iff :
      (env : Envelope) (n : Node) (v : String) (p : ℕ)
      → IsOwned n.conns
      → Holds p (local_conns v n.conns)
      → holds p (local_conns env.to_user_id n.conns) ≡ (env.to_user_id == v)
  held_iff env n v p w at_v = elim (Bool-cases (env.to_user_id == v)) [
    | inl same ↦
        rw same (
          subst (λ u. Holds p (local_conns u n.conns)) (sym ((eq_iff env.to_user_id v).0 same))
            at_v)
    | inr other ↦ elim (Bool-cases (holds p (local_conns env.to_user_id n.conns))) [
      | inl held ↦ cc (w.owner env.to_user_id v p held at_v, other)
      | inr free ↦ rw (free, other)
    ]
  ]

  -- One delivery, at a connection of the user `v`.
  deliver-heap :
      (up : Bool) (env : Envelope) (n : Node) (v : String) (p : ℕ)
      → IsOwned n.conns
      → Holds p (local_conns v n.conns)
      → ((deliver json up env n).conns ≡ n.conns)
        × ((deliver json up env n).heap p
            ≡ (if env.to_user_id == v then send json (n.heap p) env else n.heap p))
  deliver-heap up env n v p w at_v =
      let d = deliver_lem json up env n (w.distinct env.to_user_id) in
      (d.0, d.1 p ∙ rw (held_iff env n v p w at_v))

  deliver_each-heap :
      (up : ℕ → Bool) (k : ℕ) (env : Envelope) (members : List String) (n : Node) (v : String)
      (p : ℕ)
      → IsOwned n.conns
      → NoRepeats members
      → Holds p (local_conns v n.conns)
      → (deliver_each json pg redis up k env members n).heap p ≡ (
          if listed v members && not (v == env.from_user_id)
          then send json (n.heap p) (to_user json pg redis v env)
          else n.heap p)
  unfolding deliver_each
  deliver_each-heap up k env [] n v p w d at_v = refl
  deliver_each-heap up k env (m ∷ members) n v p w d at_v =
      elim (Bool-cases (m == env.from_user_id)) [
        | inl own ↦
            ap (λ b. (after_head b).heap p) own
            ∙ deliver_each-heap up (suc k) env members n v p w d.1 at_v
            ∙ ground (arith, eq_iff m v, eq_iff m env.from_user_id, eq_iff v env.from_user_id)
        | inr other ↦
            let one = deliver-heap (up k) (to_user json pg redis m env) n v p w at_v in
            let next = deliver json (up k) (to_user json pg redis m env) n in
            ap (λ b. (after_head b).heap p) other
            ∙ deliver_each-heap up (suc k) env members next v p (subst IsOwned (sym one.0) w) d.1
                (rw one.0 at_v)
            ∙ ground
                (arith, one.1, eq_iff m v, eq_iff m env.from_user_id, eq_iff v env.from_user_id)
      ]
    where
      after_head : Bool → Node
      after_head b =
          deliver_each json pg redis up (suc k) env members
            (if b then n else deliver json (up k) (to_user json pg redis m env) n)

  -- The state after a message whose three calls are all answered.
  handle_message_done :
      (o : Outside json pg redis) (env : Envelope) (s : Server json pg redis)
      (members : List String)
      → (is_member pg env.conversation_id env.from_user_id s.world).0 ≡ ok true
      → o.pipeline ≡ done
      → (member_ids pg env.conversation_id
          (is_member pg env.conversation_id env.from_user_id s.world).1).0
        ≡ ok members
      → let t = handle_message json pg redis o env s in
        (t.node ≡ deliver_each json pg redis o.up 0 (with_id o.fresh env) members s.node)
        × (t.store ≡ (enqueue json redis o.fresh o.pipeline env s.store).1)
  unfolding handle_message
  handle_message_done o env s members member piped read =
      let w = (is_member pg env.conversation_id env.from_user_id s.world).1 in
      let asked : Server json pg redis = record s { world = w } in
      let q = enqueue json redis o.fresh o.pipeline env s.store in
      let id = (with_id o.fresh env).message_id in
      let queued : q.0 ≡ ok id =
        ap (λ f. (enqueue json redis o.fresh f env s.store).0) piped
        ∙ enqueue_id json redis o.fresh env s.store in
      let ids = member_ids pg env.conversation_id w in
      let all : handle_message json pg redis o env s
          ≡ on_members json pg redis o (record env { message_id = id })
              (record asked { store = q.1 }) (ok members, ids.1) =
        ap (λ r. if is_yes json pg redis r then on_enqueued json pg redis o env asked q else asked)
          member
        ∙ ap (λ r. on_enqueued json pg redis o env asked (r, q.1)) queued
        ∙ ap
            (λ r.
              on_members json pg redis o (record env { message_id = id })
                (record asked { store = q.1 }) (r, ids.1))
            read in
      (
        ap (λ t. t.node) all
            ∙ ap (λ e. deliver_each json pg redis o.up 0 e members s.node)
                (with_id_again o.fresh env),
        ap (λ t. t.store) all,
      )

  -- A message whose sender the database gives as a member, whose pipeline is done and whose members
  -- are read, none twice, on a node where each connection stands once and under one user: every
  -- connection of another member that is read is sent it once, with its id and addressed to that
  -- member; a connection of the sender, or of a user who is not read, is sent nothing; and the
  -- queues are what `Enqueue` left.
  pub handle_message-heap :
      (o : Outside json pg redis) (env : Envelope) (s : Server json pg redis)
      (members : List String) (v : String) (p : ℕ)
      → (is_member pg env.conversation_id env.from_user_id s.world).0 ≡ ok true
      → o.pipeline ≡ done
      → (member_ids pg env.conversation_id
          (is_member pg env.conversation_id env.from_user_id s.world).1).0
        ≡ ok members
      → NoRepeats members
      → IsOwned s.node.conns
      → Holds p (local_conns v s.node.conns)
      → let t = handle_message json pg redis o env s in
        let sent = with_id o.fresh env in
        (t.node.heap p ≡ (
          if listed v members && not (v == env.from_user_id)
          then send json (s.node.heap p) (to_user json pg redis v sent)
          else s.node.heap p))
        × (t.store ≡ (enqueue json redis o.fresh o.pipeline env s.store).1)
  unfolding handle_message
  handle_message-heap o env s members v p member piped read d w at_v =
      let all = handle_message_done o env s members member piped read in
      (
        ap (λ n. n.heap p) all.0
            ∙ deliver_each-heap o.up 0 (with_id o.fresh env) members s.node v p w d at_v
            ∙ rw (from-with_id o.fresh env),
        all.1,
      )
