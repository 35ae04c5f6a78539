-- ===== src/Ws/Conn/Tick/Passed.antt =====
-- One tick of a writer, and the reading of its frame by the reader at the other end.
use mathlib.Core.List.{filter_map, filter_map-cons-none, filter_map-cons-some}
use bully.Prelude.{
  All, Bool-cases, List, Option, Option-cases, String, [], ap, append_assoc, arith, drop,
  drop-ne-nil, drop_all, false, inl, inr, length, length-drop, length-take, length_zero, ltb,
  ltb→lt, none, not_ltb, refl, sym, take, take-append-drop, take_all, to_list, true, ℕ, ◌++◌, ◌-◌,
  ◌∙◌, ◌∷◌, ◌≡◌, ◌≢◌, ◌≤◌, ◌⊎◌,
}
use bully.Relay.OfflineQueue.{last}
use bully.Ws.Conn.{Pump, accept_frame, chunk_end, emit, read_step, receive, refill, write_tick}
use bully.Ws.Conn.Tick.{
  InStep, NotNil, in_flight, in_flight_message, in_flight_of, load, refill-in_flight, refill-load,
  total,
}
use bully.Ws.Envelope.{Envelope, Json}
use bully.Ws.Padding.{
  Bytes, Decoded, Entropy, bytes, corrupt_length, decode_frame, dummy_frame, encode_frame, err,
  exhausted, frame_size, max_payload_per_frame, ok, rand_failed, rand_read,
}
use bully.Ws.Padding.Encode.{decode-dummy_frame, decode-encode_frame}

-- A reader takes in what a full frame decodes to.
pub read_step-frame :
    (json : Json) (u : String) (assembly frame : Bytes)
    → length frame ≡ frame_size
    → read_step json u assembly (record { is_binary = true; raw = frame })
      ≡ accept_frame json u assembly (decode_frame frame)
unfolding read_step
read_step-frame json u assembly frame full = ground arith

-- What a tick and the reading of its frame do together: nothing is lost, doubled or reordered.
pub record Passed (json : Json) (u : String) (p : Pump) (assembly : Bytes) (rand : Entropy)
    : Type 0 where
  pub frame : Bytes
  pub after : Pump
  pub wrote : write_tick rand p ≡ ok (frame, after)
  pub sized : length frame ≡ frame_size
  pub rest : Bytes
  pub handled : Option Envelope
  pub read : read_step json u assembly (record { is_binary = true; raw = frame }) ≡ (rest, handled)
  pub in_step : InStep after rest
  pub less : load after ≤ load p - 1
  pub shorter : length after.conn.send ≤ length p.conn.send
  pub flow :
      to_list handled ++ filter_map (receive json u) (in_flight_of after rest)
      ≡ filter_map (receive json u) (in_flight_of p assembly)

chunk_fits : (pending : Bytes) → length (take (chunk_end pending) pending) ≤ max_payload_per_frame
unfolding chunk_end
chunk_fits pending = ground (arith, length-take (chunk_end pending) pending)

pending-ne-nil : (pending : Bytes) → ltb 0 (length pending) ≡ true → pending ≢ []
pending-ne-nil pending busy = ground arith

pending-eq-nil : (pending : Bytes) → ltb 0 (length pending) ≡ false → pending ≡ []
pending-eq-nil [] idle = refl
pending-eq-nil (b ∷ pending) idle = ground arith

total_zero : (queue : List Bytes) → All NotNil queue → total queue ≡ 0 → queue ≡ []
total_zero [] q z = refl
total_zero ([] ∷ queue) q z = absurd (q.0 refl)
total_zero ((b ∷ raw) ∷ queue) q z = absurd (omega arith)

-- Once the writer holds nothing, nothing is in flight.
pub in_flight_done :
    (p : Pump) (assembly : Bytes) → InStep p assembly → load p ≡ 0 → in_flight_of p assembly ≡ []
in_flight_done p assembly s z =
    let none_left : p.pending ≡ [] = length_zero p.pending (omega arith) in
    rw (none_left, s.waits none_left, total_zero p.conn.send s.queued (omega arith))

module _ (json : Json) (u : String) where
  filter_map_cons :
      (raw : Bytes) (queue : List Bytes)
      → filter_map (receive json u) (raw ∷ queue)
        ≡ to_list (receive json u raw) ++ filter_map (receive json u) queue
  filter_map_cons raw queue = elim (Option-cases (receive json u raw)) [
    | inl e ↦ rw e (filter_map-cons-none _ raw queue e)
    | inr (env, e) ↦ rw e (filter_map-cons-some _ raw queue e)
  ]

  -- The frame of a pending message, as the reader takes it in.
  accept-chunk :
      (p : Pump) (assembly frame : Bytes)
      → p.pending ≢ []
      → decode_frame frame
        ≡ ok (record {
          payload = take (chunk_end p.pending) p.pending;
          is_real = true;
          has_more = ltb (chunk_end p.pending) (length p.pending);
        })
      → (rest : Bytes) × (handled : Option Envelope) × (accept_frame json u assembly
            (decode_frame frame)
          ≡ (rest, handled))
        × (drop (chunk_end p.pending) p.pending ≡ [] → rest ≡ [])
        × (to_list handled
              ++ filter_map
                  (receive json u)
                  (in_flight rest (drop (chunk_end p.pending) p.pending) p.conn.send)
            ≡ filter_map (receive json u) (in_flight assembly p.pending p.conn.send))
  unfolding accept_frame
  accept-chunk p assembly frame some_left decoded =
      elim (Bool-cases (ltb (chunk_end p.pending) (length p.pending))) [
        | inl more ↦ (
          assembly ++ take (chunk_end p.pending) p.pending,
          none,
          rw (decoded, more),
          λ e. absurd (drop-ne-nil _ p.pending (ltb→lt _ _ more) e),
          ap (filter_map (receive json u)) (
              in_flight_message (assembly ++ take (chunk_end p.pending) p.pending)
                (drop (chunk_end p.pending) p.pending) p.conn.send
                (drop-ne-nil _ p.pending (ltb→lt _ _ more))
              ∙ rw (append_assoc, take-append-drop (chunk_end p.pending) p.pending)
                  (sym (in_flight_message assembly p.pending p.conn.send some_left))),
        )
        | inr last ↦ (
          [],
          receive json u (assembly ++ p.pending),
          rw (decoded, last, take_all (chunk_end p.pending) p.pending (not_ltb _ _ last)),
          λ _. refl,
          rw
              (
                drop_all (chunk_end p.pending) p.pending (not_ltb _ _ last),
                in_flight_message assembly p.pending p.conn.send some_left,
              )
              (sym (filter_map_cons (assembly ++ p.pending) p.conn.send)),
        )
      ]

  accept-dummy :
      (assembly frame : Bytes)
      → (decode_frame frame ≡ err corrupt_length)
        ⊎ ((d : Decoded) × (decode_frame frame ≡ ok d) × (d.is_real ≡ false))
      → accept_frame json u assembly (decode_frame frame) ≡ (assembly, none)
  unfolding accept_frame
  accept-dummy assembly frame (inl e) = rw e
  accept-dummy assembly frame (inr (d, e, idle)) = rw (e, idle)

  emit-message :
      (f : ℕ → ℕ) (p q : Pump) (assembly : Bytes)
      → write_tick (bytes f) p ≡ emit (bytes f) q
      → in_flight_of q assembly ≡ in_flight_of p assembly
      → InStep q assembly
      → load q ≡ load p
      → length q.conn.send ≤ length p.conn.send
      → ltb 0 (length q.pending) ≡ true
      → Passed json u p assembly (bytes f)
  unfolding emit
  emit-message f p q assembly same kept s weight fewer busy =
      let chunk = take (chunk_end q.pending) q.pending in
      let more = ltb (chunk_end q.pending) (length q.pending) in
      let e = decode-encode_frame f chunk more (chunk_fits q.pending) in
      let a = accept-chunk q assembly e.0 (pending-ne-nil q.pending busy) e.3 in
      record {
        frame = e.0;
        after = record q { pending = drop (chunk_end q.pending) q.pending };
        wrote = same ∙ rw (busy, e.1);
        sized = e.2;
        rest = a.0;
        handled = a.1;
        read = read_step-frame json u assembly e.0 e.2 ∙ a.2;
        in_step = record { waits = a.3; queued = s.queued };
        shorter = fewer;
        less = ground (arith, length-drop (chunk_end q.pending) q.pending, ltb→lt _ _ busy);
        flow = a.4 ∙ ap (filter_map (receive json u)) kept;
      }

  emit-idle :
      (f : ℕ → ℕ) (p q : Pump) (assembly : Bytes)
      → write_tick (bytes f) p ≡ emit (bytes f) q
      → in_flight_of q assembly ≡ in_flight_of p assembly
      → InStep q assembly
      → load q ≡ load p
      → length q.conn.send ≤ length p.conn.send
      → (q.pending ≡ [] → load p ≡ 0)
      → ltb 0 (length q.pending) ≡ false
      → Passed json u p assembly (bytes f)
  unfolding emit
  emit-idle f p q assembly same kept s weight fewer empty idle =
      let d = decode-dummy_frame f in
      record {
        frame = d.0;
        after = q;
        wrote = same ∙ rw (idle, d.1);
        sized = d.2;
        rest = assembly;
        handled = none;
        read = read_step-frame json u assembly d.0 d.2 ∙ accept-dummy assembly d.0 d.3;
        in_step = s;
        shorter = fewer;
        less = omega (arith, empty (pending-eq-nil q.pending idle));
        flow = ap (filter_map (receive json u)) kept;
      }

  -- With entropy a tick writes a frame of full size. The reader of the frame hands on at most one
  -- envelope, and that one with those still in flight are those that were in flight before.
  pub write_tick-Passed :
      (f : ℕ → ℕ) (p : Pump) (assembly : Bytes)
      → InStep p assembly
      → Passed json u p assembly (bytes f)
  unfolding write_tick
  write_tick-Passed f p assembly s =
      let r = refill-in_flight p assembly s in
      let w = refill-load p s.queued in
      elim (Bool-cases (ltb 0 (length (refill p).pending))) [
        | inl busy ↦ emit-message f p (refill p) assembly refl r.1 r.0 w.0 w.2 busy
        | inr idle ↦ emit-idle f p (refill p) assembly refl r.1 r.0 w.0 w.2 w.1 idle
      ]

-- Without entropy the pump ends.
pub write_tick_exhausted : (p : Pump) → write_tick exhausted p ≡ err rand_failed
unfolding write_tick emit encode_frame dummy_frame rand_read
write_tick_exhausted p = ground (arith, chunk_fits (refill p).pending)
