-- ===== src/Ws/Conn/Tick.antt =====
-- What is in flight between a writer and its reader, and the pull at the head of a tick.
pub mod Passed
use bully.Prelude.{All, List, [], arith, length, refl, ℕ, ◌++◌, ◌+◌, ◌∷◌, ◌≡◌, ◌≢◌, ◌≤◌}
use bully.Ws.Conn.{Conn, Pump, pull, refill}
use bully.Ws.Padding.{Bytes}

-- What is still to be delivered: the message of which the reader has `assembly` and the writer
-- `pending`, if there is one, and those in the channel.
abbrev pub in_flight : Bytes → Bytes → List Bytes → List Bytes
in_flight [] [] queue = queue
in_flight [] (b ∷ pending) queue = (b ∷ pending) ∷ queue
in_flight (a ∷ assembly) pending queue = (a ∷ assembly ++ pending) ∷ queue

abbrev pub NotNil : Bytes → Type 0
NotNil raw = raw ≢ []

abbrev total : List Bytes → ℕ
total [] = 0
total (raw ∷ queue) = length raw + total queue

-- The bytes that the writer has still to put into frames.
abbrev pub load : Pump → ℕ
load p = length p.pending + total p.conn.send

-- The writer never has the reader wait for bytes that it does not hold, and queues no empty message.
pub record InStep (p : Pump) (assembly : Bytes) : Type 0 where
  pub waits : p.pending ≡ [] → assembly ≡ []
  pub queued : All NotNil p.conn.send

abbrev pub in_flight_of : Pump → Bytes → List Bytes
in_flight_of p assembly = in_flight assembly p.pending p.conn.send

in_flight_message :
    (assembly pending : Bytes) (queue : List Bytes)
    → pending ≢ []
    → in_flight assembly pending queue ≡ (assembly ++ pending) ∷ queue
in_flight_message [] [] queue h = absurd (h refl)
in_flight_message [] (b ∷ pending) queue h = refl
in_flight_message (a ∷ assembly) pending queue h = refl

pull-in_flight :
    (c : Conn) (pending assembly : Bytes) (queue : List Bytes)
    → (pending ≡ [] → assembly ≡ [])
    → All NotNil queue
    → InStep (pull c pending queue) assembly
      × (in_flight_of (pull c pending queue) assembly ≡ in_flight assembly pending queue)
unfolding pull
pull-in_flight c [] [] [] w q = (record { waits = w; queued = tt }, refl)
pull-in_flight c [] [] ([] ∷ queue) w q = absurd (q.0 refl)
pull-in_flight c [] [] ((b ∷ raw) ∷ queue) w q = (record { waits = λ e. refl; queued = q.1 }, refl)
pull-in_flight c [] (a ∷ assembly) queue w q = cc (w refl)
pull-in_flight c (b ∷ pending) assembly queue w q = (record { waits = w; queued = q }, refl)

-- The pull at the head of a tick moves a message from the channel to `pending`, and loses none.
refill-in_flight :
    (p : Pump) (assembly : Bytes)
    → InStep p assembly
    → InStep (refill p) assembly × (in_flight_of (refill p) assembly ≡ in_flight_of p assembly)
unfolding refill
refill-in_flight p assembly s =
    pull-in_flight p.conn p.pending assembly p.conn.send s.waits s.queued

pull-load :
    (c : Conn) (pending : Bytes) (queue : List Bytes)
    → All NotNil queue
    → (load (pull c pending queue) ≡ length pending + total queue)
      × ((pull c pending queue).pending ≡ [] → length pending + total queue ≡ 0)
      × (length (pull c pending queue).conn.send ≤ length queue)
unfolding pull
pull-load c [] [] q = (refl, λ e. refl, omega arith)
pull-load c [] ([] ∷ queue) q = absurd (q.0 refl)
pull-load c [] ((b ∷ raw) ∷ queue) q = (omega arith, λ e. cc, omega arith)
pull-load c (b ∷ pending) queue q = (refl, λ e. cc, omega arith)

refill-load :
    (p : Pump)
    → All NotNil p.conn.send
    → (load (refill p) ≡ load p)
      × ((refill p).pending ≡ [] → load p ≡ 0)
      × (length (refill p).conn.send ≤ length p.conn.send)
unfolding refill
refill-load p q = pull-load p.conn p.pending p.conn.send q
