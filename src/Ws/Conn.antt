-- ===== src/Ws/Conn.antt =====
-- conn.go: one websocket connection. Its writer sends a frame on every tick, real or dummy; its
-- reader puts the frames of a message together again.
use mathlib.Core.Option
pub mod Tick
pub mod Delivery
pub mod Reading
pub mod Written
use bully.Prelude.{
  Bool, List, Option, String, [], drop, if◌then◌else◌, length, ltb, nat_beq, none, not, some, take,
  to_list, ℕ, ◌++◌, ◌||◌, ◌∷◌,
}
use bully.Db.{◌>>◌}
use bully.Ws.Envelope.{Envelope, Json}
use bully.Ws.Padding.{
  Bytes, Decoded, Entropy, Result, decode_frame, dummy_frame, encode_frame, err, frame_size,
  max_payload_per_frame, ok, ◌>>=◌,
}

-- `sendBufferSize`, the capacity of the channel `send`.
abbrev pub send_buffer_size : ℕ
send_buffer_size = 4096

-- A connection; the socket itself is outside. `send` is what the channel holds, oldest first.
pub record Conn : Type 0 where
  pub user_id : String
  pub send : List Bytes

unfoldable pub new_conn : String → Conn
new_conn user_id = record { user_id = user_id; send = [] }

-- A send on the channel in a `select` with a default: dropped when the buffer is full.
unfoldable pub offer : List Bytes → Bytes → List Bytes
offer queue raw = if ltb (length queue) send_buffer_size then queue ++ raw ∷ [] else queue

-- `Conn.Send`
unfoldable pub send : Json → Conn → Envelope → Conn
unfolding offer
send json c env = elim (json.marshal env) [
  | none ↦ c
  | some raw ↦ record c { send = offer c.send raw }
]

-- What `WritePump` keeps between ticks: its connection, and the rest of the message that it writes.
pub record Pump : Type 0 where
  pub conn : Conn
  pub pending : Bytes

unfoldable pub pull : Conn → Bytes → List Bytes → Pump
pull c [] (raw ∷ queue) = record { conn = record c { send = queue }; pending = raw }
pull c pending queue = record { conn = record c { send = queue }; pending = pending }

-- The receive at the head of a tick: only when nothing is pending, and without waiting.
unfoldable pub refill : Pump → Pump
unfolding pull
refill p = pull p.conn p.pending p.conn.send

-- How much of the pending message the next frame takes.
unfoldable pub chunk_end : Bytes → ℕ
chunk_end pending =
    if ltb max_payload_per_frame (length pending) then max_payload_per_frame else length pending

-- The rest of a tick: the frame to write, and what is pending after it.
unfoldable pub emit : Entropy → Pump → Result (Bytes × Pump)
unfolding chunk_end
emit rand p =
    if ltb 0 (length p.pending)
    then (let end = chunk_end p.pending in
        let has_more = ltb end (length p.pending) in
        do
          frame ← encode_frame rand (take end p.pending) has_more
          ok (frame, record p { pending = drop end p.pending }))
    else (do frame ← dummy_frame rand; ok (frame, p))

-- One round of the loop of `WritePump`. An error ends the pump.
unfoldable pub write_tick : Entropy → Pump → Result (Bytes × Pump)
unfolding refill emit
write_tick rand p = emit rand (refill p)

-- What `ReadMessage` returns: whether the message is binary, and its bytes.
pub record WsMessage : Type 0 where
  pub is_binary : Bool
  pub raw : Bytes

-- `env.FromUserID = c.userID`: the sender is whoever holds the connection, whatever the text says.
abbrev pub stamp : String → Envelope → Envelope
stamp user_id env = record env { from_user_id = user_id }

-- The end of a message: its bytes are read as an envelope, and dropped if they are none.
unfoldable pub receive : Json → String → Bytes → Option Envelope
receive json user_id assembly = Option.map (stamp user_id) (json.unmarshal assembly)

-- What a frame does to the bytes collected so far; the envelope is the one handed to `handle`.
unfoldable pub accept_frame : Json → String → Bytes → Result Decoded → Bytes × Option Envelope
accept_frame json user_id assembly (err e) = (assembly, none)
accept_frame json user_id assembly (ok d) =
    if not d.is_real
    then (assembly, none)
    else if d.has_more
    then (assembly ++ d.payload, none)
    else ([], receive json user_id (assembly ++ d.payload))

-- One round of the loop of `ReadPump`.
unfoldable pub read_step : Json → String → Bytes → WsMessage → Bytes × Option Envelope
unfolding accept_frame
read_step json user_id assembly m =
    if not m.is_binary || not (nat_beq (length m.raw) frame_size)
    then (assembly, none)
    else accept_frame json user_id assembly (decode_frame m.raw)

-- `ReadPump` over the messages that arrive before the socket fails: what it hands to `handle`.
unfoldable pub read_pump : Json → String → Bytes → List WsMessage → List Envelope
read_pump json user_id assembly [] = []
read_pump json user_id assembly (m ∷ ms) =
    let (rest, handled) = read_step json user_id assembly m in
    to_list handled ++ read_pump json user_id rest ms
