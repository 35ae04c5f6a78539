-- ===== src/Ws/Conn/Delivery.antt =====
-- A writer and a reader at the two ends of one socket, over any sequence of sends and ticks.
pub mod Drained
use mathlib.Core.List.{filter_map, filter_map-append, filter_map-cons-some, map-append}
use bully.Prelude.{
  All, Bool, Bool-cases, List, String, [], ap, append_assoc, false, if◌then◌else◌, inl, inr, length,
  ltb, map, refl, some, to_list, true, ◌++◌, ◌∙◌, ◌∷◌, ◌≡◌,
}
use bully.Ws.Conn.{
  Conn, Pump, new_conn, read_step, receive, send, send_buffer_size, stamp, write_tick,
}
use bully.Ws.Conn.Tick.{InStep, NotNil, in_flight, in_flight_of}
use bully.Ws.Conn.Tick.Passed.{write_tick-Passed, write_tick_exhausted}
use bully.Ws.Envelope.{Envelope, Json}
use bully.Ws.Padding.{Bytes, Entropy, Result, bytes, err, exhausted, ok}

-- `sent` records, for the statements alone, the envelopes that the channel took.
pub record Link : Type 0 where
  pub pump : Pump
  pub is_open : Bool
  pub assembly : Bytes
  pub handled : List Envelope
  pub sent : List Envelope

pub data Event : Type 0 where
  sends : Envelope → Event
  ticks : Entropy → Event

-- The reader at work on the frame that a tick has written; an error closes the writer.
abbrev deliver : Json → String → Link → Result (Bytes × Pump) → Link
deliver json u l (err e) = record l { is_open = false }
deliver json u l (ok (frame, after)) =
    let r = read_step json u l.assembly (record { is_binary = true; raw = frame }) in
    record l { pump = after; assembly = r.0; handled = l.handled ++ to_list r.1 }

unfoldable pub tick_when : Json → String → Link → Entropy → Bool → Link
tick_when json u l rand true = deliver json u l (write_tick rand l.pump)
tick_when json u l rand false = l

unfoldable pub step : Json → String → Link → Event → Link
step json u l (sends env) = record l {
  pump = record l.pump { conn = send json l.pump.conn env };
  sent = if ltb (length l.pump.conn.send) send_buffer_size then l.sent ++ env ∷ [] else l.sent;
}
step json u l (ticks rand) = tick_when json u l rand l.is_open

unfoldable pub run : Json → String → Link → List Event → Link
unfolding step
run json u l [] = l
run json u l (e ∷ es) = run json u (step json u l e) es

unfoldable pub connected : String → Link
unfolding new_conn
connected user_id = record {
  pump = record { conn = new_conn user_id; pending = [] };
  is_open = true;
  assembly = [];
  handled = [];
  sent = [];
}

-- What was handed on, and then what is in flight, are what was sent, in that order.
pub record InOrder (json : Json) (u : String) (l : Link) : Type 0 where
  pub in_step : InStep l.pump l.assembly
  pub ordered :
      l.handled ++ filter_map (receive json u) (in_flight_of l.pump l.assembly)
      ≡ map (stamp u) l.sent

in_flight-append :
    (assembly pending raw : Bytes) (queue : List Bytes)
    → in_flight assembly pending (queue ++ raw ∷ []) ≡ in_flight assembly pending queue ++ raw ∷ []
in_flight-append [] [] raw queue = refl
in_flight-append [] (b ∷ pending) raw queue = refl
in_flight-append (a ∷ assembly) pending raw queue = refl

NotNil-append :
    (queue : List Bytes) (raw : Bytes)
    → NotNil raw
    → All NotNil queue
    → All NotNil (queue ++ raw ∷ [])
NotNil-append [] raw h q = (h, tt)
NotNil-append (r ∷ queue) raw h q = (q.0, NotNil-append queue raw h q.1)

module _ (json : Json) (u : String) where
  pub receive-marshal :
      (env : Envelope) (raw : Bytes)
      → json.marshal env ≡ some raw
      → receive json u raw ≡ some (stamp u env)
  unfolding receive
  receive-marshal env raw e = rw (json.unmarshal-marshal env raw e)

  ordered_send :
      (l : Link) (env : Envelope) (raw : Bytes)
      → json.marshal env ≡ some raw
      → l.handled ++ filter_map (receive json u) (in_flight_of l.pump l.assembly)
        ≡ map (stamp u) l.sent
      → l.handled
          ++ filter_map
              (receive json u)
              (in_flight l.assembly l.pump.pending (l.pump.conn.send ++ raw ∷ []))
        ≡ map (stamp u) (l.sent ++ env ∷ [])
  unfolding filter_map
  ordered_send l env raw e v = rw (
    in_flight-append l.assembly l.pump.pending raw l.pump.conn.send,
    filter_map-append,
    ← append_assoc,
    v,
    filter_map-cons-some (receive json u) raw [] (receive-marshal env raw e),
    map-append,
  )

  send-marshal :
      (c : Conn) (env : Envelope) (raw : Bytes)
      → json.marshal env ≡ some raw
      → send json c env ≡ record c {
        send = if ltb (length c.send) send_buffer_size then c.send ++ raw ∷ [] else c.send;
      }
  unfolding send
  send-marshal c env raw e = rw (e, send)

  sends-InOrder :
      (l : Link) (env : Envelope) → InOrder json u l → InOrder json u (step json u l (sends env))
  unfolding step
  sends-InOrder l env v = elim (Bool-cases (ltb (length l.pump.conn.send) send_buffer_size)) [
    | inr full ↦
        let m = json.marshals env in
        rw (send-marshal l.pump.conn env m.0 m.1, full)
          (record { in_step = v.in_step; ordered = v.ordered })
    | inl room ↦
        let m = json.marshals env in
        rw (send-marshal l.pump.conn env m.0 m.1, room)
          (record {
            in_step = record {
              waits = v.in_step.waits;
              queued =
                  NotNil-append l.pump.conn.send m.0 (λ z. json.not_empty env (m.1 ∙ ap some z))
                    v.in_step.queued;
            };
            ordered = ordered_send l env m.0 m.1 v.ordered;
          })
  ]

  tick_when-InOrder :
      (l : Link) (rand : Entropy) (up : Bool)
      → InOrder json u l
      → InOrder json u (tick_when json u l rand up)
  unfolding tick_when
  tick_when-InOrder l rand false v = v
  tick_when-InOrder l exhausted true v =
      rw (write_tick_exhausted l.pump) (record { in_step = v.in_step; ordered = v.ordered })
  tick_when-InOrder l (bytes f) true v =
      let t = write_tick-Passed json u f l.pump l.assembly v.in_step in
      rw (t.wrote, t.read)
        (record {
          in_step = t.in_step;
          ordered =
              append_assoc l.handled (to_list t.handled) _ ∙ ap (◌++◌ l.handled) t.flow ∙ v.ordered;
        })

  ticks-InOrder :
      (l : Link) (rand : Entropy) → InOrder json u l → InOrder json u (step json u l (ticks rand))
  unfolding step
  ticks-InOrder l rand v = tick_when-InOrder l rand l.is_open v

  run-InOrder : (l : Link) (es : List Event) → InOrder json u l → InOrder json u (run json u l es)
  unfolding run
  run-InOrder l [] v = v
  run-InOrder l (sends env ∷ es) v =
      run-InOrder (step json u l (sends env)) es (sends-InOrder l env v)
  run-InOrder l (ticks rand ∷ es) v =
      run-InOrder (step json u l (ticks rand)) es (ticks-InOrder l rand v)

  connected-InOrder : (user_id : String) → InOrder json u (connected user_id)
  unfolding connected filter_map
  connected-InOrder user_id = record {
    in_step = record { waits = λ e. refl; queued = tt };
    ordered = refl;
  }

  -- At any moment, and whatever entropy fails, what the reader has handed on is a prefix of what the
  -- channel took, in order, each envelope under the name of the connection's user.
  pub handled_in_order :
      (user_id : String) (es : List Event)
      → let l = run json u (connected user_id) es in
        (rest : List Envelope) × (l.handled ++ rest ≡ map (stamp u) l.sent)
  handled_in_order user_id es =
      (_, (run-InOrder (connected user_id) es (connected-InOrder user_id)).ordered)
