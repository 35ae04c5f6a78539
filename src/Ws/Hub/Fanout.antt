-- ===== src/Ws/Hub/Fanout.antt =====
-- `Deliver` and the Redis subscription: which connections an envelope reaches.
use bully.Prelude.{
  Bool, List, [], arith, false, if◌then◌else◌, length, nat_beq, refl, some, to_list, true, ℕ, ◌&&◌,
  ◌++◌, ◌∙◌, ◌∷◌, ◌≡◌,
}
use bully.Ws.Conn.{Conn, send}
use bully.Ws.Envelope.{Envelope, Json}
use bully.Ws.Hub.{
  Node, deliver, deliver_to, holds, local_conns, on_published, publish, send_all, update,
}
use bully.Ws.Padding.{Bytes}

-- A pointer stands in the list.
abbrev pub Holds : ℕ → List ℕ → Type 0
Holds c cs = holds c cs ≡ true

-- No pointer stands there twice.
abbrev pub Distinct : List ℕ → Type 0
Distinct [] = Unit
Distinct (c ∷ cs) = (holds c cs ≡ false) × Distinct cs

-- Among distinct connections each gets the envelope once, and no other connection of the node changes.
send_all_once :
    (json : Json) (env : Envelope) (heap : ℕ → Conn) (cs : List ℕ) (p : ℕ)
    → Distinct cs
    → send_all json env heap cs p ≡ (if holds p cs then send json (heap p) env else heap p)
unfolding send_all holds update
send_all_once json env heap [] p d = refl
send_all_once json env heap (c ∷ cs) p d =
    send_all_once json env (update heap c (send json (heap c) env)) cs p d.1 ∙ ground arith

deliver_to_lem :
    (json : Json) (up : Bool) (env : Envelope) (n : Node) (cs : List ℕ)
    → Distinct cs
    → let m = deliver_to json up env n cs in
      (m.conns ≡ n.conns)
      × ((p : ℕ) → m.heap p ≡ (if holds p cs then send json (n.heap p) env else n.heap p))
      × (m.published ≡ (
          if nat_beq (length cs) 0 && up
          then n.published ++ to_list (json.marshal env)
          else n.published))
unfolding deliver_to publish holds
deliver_to_lem json up env n [] d =
    let m = json.marshals env in
    (ground (arith, m.1), λ p. ground (arith, m.1), ground (arith, m.1))
deliver_to_lem json up env n (c ∷ cs) d =
    (refl, λ p. send_all_once json env n.heap (c ∷ cs) p d, ground arith)

-- With the recipient's connections on this node distinct, `Deliver` gives the envelope once to each
-- of them and to no other connection. It is published, once, exactly if the recipient has none here
-- and Redis takes it.
pub deliver_lem :
    (json : Json) (up : Bool) (env : Envelope) (n : Node)
    → Distinct (local_conns env.to_user_id n.conns)
    → let m = deliver json up env n in
      let here = local_conns env.to_user_id n.conns in
      (m.conns ≡ n.conns)
      × ((p : ℕ) → m.heap p ≡ (if holds p here then send json (n.heap p) env else n.heap p))
      × (m.published ≡ (
          if nat_beq (length here) 0 && up
          then n.published ++ to_list (json.marshal env)
          else n.published))
unfolding deliver
deliver_lem json up env n d = deliver_to_lem json up env n (local_conns env.to_user_id n.conns) d

on_published-marshal :
    (json : Json) (env : Envelope) (payload : Bytes) (n : Node)
    → json.marshal env ≡ some payload
    → on_published json payload n
      ≡ record n { heap = send_all json env n.heap (local_conns env.to_user_id n.conns) }
unfolding on_published
on_published-marshal json env payload n e = rw (json.unmarshal-marshal env payload e, on_published)

-- Across nodes: an envelope for a user with no connection here is published, if Redis takes it, as
-- one payload, and another node that reads the payload, where the user's connections are distinct,
-- gives the envelope once to each of them, and to no other connection.
pub on_published-deliver :
    (json : Json) (env : Envelope) (n other : Node)
    → local_conns env.to_user_id n.conns ≡ []
    → Distinct (local_conns env.to_user_id other.conns)
    → (payload : Bytes) × ((deliver json true env n).published ≡ n.published ++ payload ∷ [])
      × ((p : ℕ)
          → (on_published json payload other).heap p ≡ (
              if holds p (local_conns env.to_user_id other.conns)
              then send json (other.heap p) env
              else other.heap p))
on_published-deliver json env n other away d =
    let m = json.marshals env in
    let here = (deliver_lem json true env n (rw away tt)).2 in
    (
      m.0,
      here ∙ rw (away, m.1),
      λ p.
          rw (on_published-marshal json env m.0 other m.1)
            (send_all_once json env other.heap (local_conns env.to_user_id other.conns) p d),
    )
