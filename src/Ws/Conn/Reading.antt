-- ===== src/Ws/Conn/Reading.antt =====
-- What a reader makes of whatever arrives on its socket.
use bully.Prelude.{
  All, All-append, Bool-cases, List, String, [], ap, append-nil, append_assoc, arith, drop,
  drop-ne-nil, drop_all, inl, inr, length, ltb, ltb→lt, map, not_ltb, refl, some, take,
  take-append-drop, take_all, to_list, true, ℕ, ◌++◌, ◌∙◌, ◌∷◌, ◌≡◌, ◌≢◌,
}
use bully.Relay.OfflineQueue.{last}
use bully.Ws.Conn.{WsMessage, accept_frame, read_pump, read_step, receive, stamp}
use bully.Ws.Conn.Delivery.{receive-marshal}
use bully.Ws.Conn.Tick.Passed.{read_step-frame}
use bully.Ws.Envelope.{Envelope, Json}
use bully.Ws.Padding.{
  Bytes, Decoded, Result, bytes, decode_frame, err, max_payload_per_frame, ok, split_into_frames,
}
use bully.Ws.Padding.Split.{Carries, split_into_frames-Carries}

abbrev pub IsFrom : String → Envelope → Type 0
IsFrom u env = env.from_user_id ≡ u

abbrev pub binary : Bytes → WsMessage
binary raw = record { is_binary = true; raw = raw }

module _ (json : Json) (u : String) where
  receive-IsFrom : (raw : Bytes) → All (IsFrom u) (to_list (receive json u raw))
  unfolding receive
  receive-IsFrom raw = ground arith

  accept-IsFrom :
      (assembly : Bytes) (r : Result Decoded)
      → All (IsFrom u) (to_list (accept_frame json u assembly r).1)
  unfolding accept_frame
  accept-IsFrom assembly (err e) = tt
  accept-IsFrom assembly (ok d) = ground (arith, receive-IsFrom (assembly ++ d.payload))

  step-IsFrom :
      (assembly : Bytes) (m : WsMessage) → All (IsFrom u) (to_list (read_step json u assembly m).1)
  unfolding read_step
  step-IsFrom assembly m = ground (arith, accept-IsFrom assembly (decode_frame m.raw))

  -- Whatever a client puts on its socket, every envelope that the reader hands on has the user of the
  -- connection for its sender.
  pub read_pump-IsFrom :
      (assembly : Bytes) (ms : List WsMessage) → All (IsFrom u) (read_pump json u assembly ms)
  unfolding read_pump
  read_pump-IsFrom assembly [] = tt
  read_pump-IsFrom assembly (m ∷ ms) =
      All-append (IsFrom u) (to_list (read_step json u assembly m).1) _ (step-IsFrom assembly m)
        (read_pump-IsFrom (read_step json u assembly m).0 ms)

  carried-last :
      (frames : List Bytes) (message : Bytes) → Carries frames message → message ≡ [] → frames ≡ []
  carried-last [] message c e = refl
  carried-last (frame ∷ frames) message c e = absurd (c.0 e)

  -- The frames that carry a message, read in order, give the message once, after what was collected.
  read_pump-Carries :
      (assembly : Bytes) (frames : List Bytes) (message : Bytes)
      → message ≢ []
      → Carries frames message
      → read_pump json u assembly (map binary frames)
        ≡ to_list (receive json u (assembly ++ message))
  unfolding read_pump accept_frame
  read_pump-Carries assembly [] message h c = absurd (h c)
  read_pump-Carries assembly (frame ∷ frames) message h c =
      elim (Bool-cases (ltb max_payload_per_frame (length message))) [
        | inl more ↦
            rw (read_step-frame json u assembly frame c.1, c.2, more)
              (read_pump-Carries (assembly ++ take max_payload_per_frame message) frames
                  (drop max_payload_per_frame message)
                  (drop-ne-nil max_payload_per_frame message (ltb→lt _ _ more)) c.3
                ∙ rw (append_assoc, take-append-drop max_payload_per_frame message))
        | inr last ↦
            let none_left =
              carried-last frames (drop max_payload_per_frame message) c.3
                (drop_all max_payload_per_frame message (not_ltb _ _ last)) in
            rw
              (
                read_step-frame json u assembly frame c.1,
                c.2,
                last,
                none_left,
                take_all max_payload_per_frame message (not_ltb _ _ last),
              )
              (append-nil _)
      ]

  -- On entropy, the text of an envelope is cut by `SplitIntoFrames` into frames from which a fresh
  -- reader hands on the envelope, once, under the name of the reader's user, and nothing else.
  pub read_pump-split_into_frames :
      (f : ℕ → ℕ → ℕ) (env : Envelope) (raw : Bytes)
      → json.marshal env ≡ some raw
      → (frames : List Bytes) × (split_into_frames (λ i. bytes (f i)) raw ≡ some (ok frames))
        × (read_pump json u [] (map binary frames) ≡ stamp u env ∷ [])
  read_pump-split_into_frames f env raw e =
      let full : raw ≢ [] = λ z. json.not_empty env (e ∙ ap some z) in
      let s = split_into_frames-Carries f raw full in
      (
        s.0,
        s.1,
        read_pump-Carries [] s.0 raw full s.2 ∙ ap to_list (receive-marshal json u env raw e),
      )
