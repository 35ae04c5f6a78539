-- ===== src/Ws/Hub.antt =====
-- hub.go: the connections of one node, and the delivery of envelopes to them. A connection is a
-- pointer, a number, into the heap of the node; the mutex makes each call of the hub one step.
pub mod Laws
pub mod Fanout
pub mod Counted
use bully.Prelude.{
  Bool, List, String, [], false, if◌then◌else◌, length, nat_beq, none, some, ℕ, ◌++◌, ◌||◌, ◌∷◌,
}
use bully.Prelude.Assoc.{Assoc, insert, lookup, without}
use bully.Ws.Conn.{Conn, send}
use bully.Ws.Envelope.{Envelope, Json}
use bully.Ws.Padding.{Bytes}

-- `conns`, the field that the mutex guards.
abbrev pub Conns : Type 0
Conns = Assoc (List ℕ)

-- What a node keeps: the hub's map, the connections that its pointers lead to, and what it has put on
-- the Redis channel `bully:relay`, oldest first.
pub record Node : Type 0 where
  pub conns : Conns
  pub heap : ℕ → Conn
  pub published : List Bytes

-- A read of `h.conns[userID]`: the empty slice if there is no such key. `localConns` copies it.
unfoldable pub local_conns : String → Conns → List ℕ
local_conns user_id conns = elim (lookup user_id conns) [ none ↦ [] | some cs ↦ cs ]

-- `Hub.Register`
unfoldable pub register : String → ℕ → Conns → Conns
register user_id c conns = insert user_id (local_conns user_id conns ++ c ∷ []) conns

-- The loop of `Unregister`: the first connection that is `c` is cut out.
unfoldable pub cut : ℕ → List ℕ → List ℕ
cut c [] = []
cut c (existing ∷ rest) = if nat_beq existing c then rest else existing ∷ cut c rest

-- Whether that loop finds one.
unfoldable pub holds : ℕ → List ℕ → Bool
holds c [] = false
holds c (existing ∷ rest) = nat_beq existing c || holds c rest

unfoldable pub drop_empty : String → Conns → Conns
drop_empty user_id conns =
    if nat_beq (length (local_conns user_id conns)) 0 then without user_id conns else conns

-- `Hub.Unregister`
unfoldable pub unregister : String → ℕ → Conns → Conns
unfolding drop_empty
unregister user_id c conns =
    let held = local_conns user_id conns in
    drop_empty user_id (if holds c held then insert user_id (cut c held) conns else conns)

-- A write through a pointer.
unfoldable pub update : (ℕ → Conn) → ℕ → Conn → ℕ → Conn
update heap c conn p = if nat_beq p c then conn else heap p

-- `for _, c := range conns { c.Send(env) }`
unfoldable pub send_all : Json → Envelope → (ℕ → Conn) → List ℕ → ℕ → Conn
send_all json env heap [] = heap
send_all json env heap (c ∷ cs) = send_all json env (update heap c (send json (heap c) env)) cs

-- `Publish` at the end of `Deliver`: `up` says whether Redis takes it. An error is only logged.
unfoldable pub publish : Json → Bool → Envelope → Node → Node
publish json up env n = elim (json.marshal env) [
  | none ↦ n
  | some payload ↦ if up then record n { published = n.published ++ payload ∷ [] } else n
]

-- What `Deliver` does with the connections that it has found.
unfoldable pub deliver_to : Json → Bool → Envelope → Node → List ℕ → Node
unfolding publish
deliver_to json up env n [] = publish json up env n
deliver_to json up env n (c ∷ cs) = record n { heap = send_all json env n.heap (c ∷ cs) }

-- `Hub.Deliver`
unfoldable pub deliver : Json → Bool → Envelope → Node → Node
unfolding deliver_to
deliver json up env n = deliver_to json up env n (local_conns env.to_user_id n.conns)

-- One round of `subscribeLoop`: a payload that arrives on the Redis channel.
unfoldable pub on_published : Json → Bytes → Node → Node
on_published json payload n = elim (json.unmarshal payload) [
  | none ↦ n
  | some env ↦ record n { heap = send_all json env n.heap (local_conns env.to_user_id n.conns) }
]
