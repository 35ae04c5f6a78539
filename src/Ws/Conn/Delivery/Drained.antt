-- ===== src/Ws/Conn/Delivery/Drained.antt =====
-- The end of a run of a writer and a reader: a series of ticks with entropy.
use mathlib.Core.List.{filter_map}
use bully.Prelude.{
  Bool, List, String, [], ap, append-nil, append_assoc, arith, false, length, length-append, lt→ltb,
  map, refl, sym, true, ℕ, ◌++◌, ◌+◌, ◌-◌, ◌<◌, ◌∙◌, ◌∷◌, ◌≡◌, ◌≤◌,
}
use bully.Ws.Conn.{receive, send_buffer_size, stamp}
use bully.Ws.Conn.Delivery.{
  Event, InOrder, Link, connected, connected-InOrder, run, run-InOrder, send-marshal, sends,
  sends-InOrder, step, tick_when, ticks, ticks-InOrder,
}
use bully.Ws.Conn.Tick.{InStep, load}
use bully.Ws.Conn.Tick.Passed.{in_flight_done, write_tick-Passed, write_tick_exhausted}
use bully.Ws.Envelope.{Envelope, Json}
use bully.Ws.Padding.{Entropy, bytes, exhausted}

module _ (json : Json) (u : String) where
  -- Ticks with entropy, one for each stream of random bytes.
  abbrev pub drain : List (ℕ → ℕ) → List Event
  drain = map (λ f. ticks (bytes f))

  run-append :
      (l : Link) (es fs : List Event) → run json u l (es ++ fs) ≡ run json u (run json u l es) fs
  unfolding run
  run-append l [] fs = refl
  run-append l (e ∷ es) fs = run-append (step json u l e) es fs

  tick_open :
      (l : Link) (f : ℕ → ℕ)
      → InStep l.pump l.assembly
      → l.is_open ≡ true
      → let m = step json u l (ticks (bytes f)) in
        (m.is_open ≡ true) × (load m.pump ≤ load l.pump - 1) × (m.sent ≡ l.sent)
  unfolding step tick_when
  tick_open l f s up =
      let t = write_tick-Passed json u f l.pump l.assembly s in
      simp (up, t.wrote) (refl, t.less, refl)

  drain-load :
      (l : Link) (fs : List (ℕ → ℕ))
      → InOrder json u l
      → l.is_open ≡ true
      → load l.pump ≤ length fs
      → (load (run json u l (drain fs)).pump ≡ 0) × ((run json u l (drain fs)).sent ≡ l.sent)
  unfolding run
  drain-load l [] v up h = (omega arith, refl)
  drain-load l (f ∷ fs) v up h =
      let t = tick_open l f v.in_step up in
      let r =
        drain-load (step json u l (ticks (bytes f))) fs (ticks-InOrder json u l (bytes f) v) t.0
          (omega arith) in
      (r.0, r.1 ∙ t.2)

  finished : (l : Link) → InOrder json u l → load l.pump ≡ 0 → l.handled ≡ map (stamp u) l.sent
  unfolding filter_map
  finished l v z =
      sym (append-nil l.handled)
      ∙ ap (λ raws. l.handled ++ filter_map (receive json u) raws)
          (sym (in_flight_done l.pump l.assembly v.in_step z))
      ∙ v.ordered

  drained :
      (l : Link) (fs : List (ℕ → ℕ))
      → InOrder json u l
      → l.is_open ≡ true
      → load l.pump ≤ length fs
      → (run json u l (drain fs)).handled ≡ map (stamp u) l.sent
  drained l fs v up enough =
      let r = drain-load l fs v up enough in
      finished (run json u l (drain fs)) (run-InOrder json u l (drain fs) v) r.0
      ∙ ap (map (stamp u)) r.1

  -- The envelopes that a run of events sends.
  abbrev pub sends_of : List Event → List Envelope
  sends_of [] = []
  sends_of (sends env ∷ es) = env ∷ sends_of es
  sends_of (ticks rand ∷ es) = sends_of es

  tick_when_queue :
      (l : Link) (rand : Entropy) (up : Bool)
      → InStep l.pump l.assembly
      → let m = tick_when json u l rand up in
        (length m.pump.conn.send ≤ length l.pump.conn.send) × (m.sent ≡ l.sent)
  unfolding tick_when
  tick_when_queue l rand false s = (omega arith, refl)
  tick_when_queue l exhausted true s = rw (write_tick_exhausted l.pump) (omega arith, refl)
  tick_when_queue l (bytes f) true s =
      let t = write_tick-Passed json u f l.pump l.assembly s in rw t.wrote (t.shorter, refl)

  ticks_queue :
      (l : Link) (rand : Entropy)
      → InStep l.pump l.assembly
      → let m = step json u l (ticks rand) in
        (length m.pump.conn.send ≤ length l.pump.conn.send) × (m.sent ≡ l.sent)
  unfolding step
  ticks_queue l rand s = tick_when_queue l rand l.is_open s

  sends_queue :
      (l : Link) (env : Envelope)
      → length l.pump.conn.send < send_buffer_size
      → let m = step json u l (sends env) in
        (length m.pump.conn.send ≡ length l.pump.conn.send + 1) × (m.sent ≡ l.sent ++ env ∷ [])
  unfolding step
  sends_queue l env room =
      let m = json.marshals env in
      rw (send-marshal json u l.pump.conn env m.0 m.1, lt→ltb _ _ room)
        (omega (arith, length-append l.pump.conn.send (m.0 ∷ [])), refl)

  run-sent :
      (l : Link) (es : List Event)
      → InOrder json u l
      → length l.pump.conn.send + length (sends_of es) ≤ send_buffer_size
      → (run json u l es).sent ≡ l.sent ++ sends_of es
  unfolding run
  run-sent l [] v h = sym (append-nil l.sent)
  run-sent l (sends env ∷ es) v h =
      let s = sends_queue l env (omega arith) in
      run-sent (step json u l (sends env)) es (sends-InOrder json u l env v) (omega (arith, s.0))
      ∙ ap (λ sent. sent ++ sends_of es) s.1
      ∙ append_assoc l.sent (env ∷ []) (sends_of es)
  run-sent l (ticks rand ∷ es) v h =
      let s = ticks_queue l rand v.in_step in
      run-sent (step json u l (ticks rand)) es (ticks-InOrder json u l rand v) (omega (arith, s.0))
      ∙ ap (λ sent. sent ++ sends_of es) s.1

  -- If no more envelopes are sent than the channel has room for, and the writer is still open after
  -- the events `es`, then at least as many further ticks with entropy as bytes are waiting hand
  -- every one of the envelopes on: once each, in order, under the user's name.
  pub delivered_in_order :
      (user_id : String) (es : List Event) (fs : List (ℕ → ℕ))
      → length (sends_of es) ≤ send_buffer_size
      → (run json u (connected user_id) es).is_open ≡ true
      → load (run json u (connected user_id) es).pump ≤ length fs
      → (run json u (connected user_id) (es ++ drain fs)).handled ≡ map (stamp u) (sends_of es)
  unfolding connected
  delivered_in_order user_id es fs fit up enough =
      let start = connected-InOrder json u user_id in
      rw run-append (
        drained (run json u (connected user_id) es) fs
          (run-InOrder json u (connected user_id) es start) up enough
        ∙ ap (map (stamp u)) (run-sent (connected user_id) es start (omega arith)))
