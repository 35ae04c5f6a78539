-- ===== src/Ws/Conn/Written.antt =====
-- What `WritePump` writes of one message, and what `SplitIntoFrames` makes of it.
use bully.Prelude.{
  Bool-cases, List, Option, [], arith, drop, drop-drop, drop_all, if◌then◌else◌, inl, inr, length,
  length-drop, ltb, ltb-false, none, not_ltb, refl, some, suc, sym, take, take_all, true, zero, ℕ,
  ◌++◌, ◌+◌, ◌∙◌, ◌∷◌, ◌≡◌, ◌≢◌, ◌≤◌,
}
use bully.Ws.Conn.{Conn, Pump, chunk_end, emit, pull, refill, write_tick}
use bully.Ws.Padding.{
  Bytes, Entropy, Result, encode_frame, err, max_payload_per_frame, ok, split_into_frames,
  split_loop, ◌>>=◌,
}
use bully.Ws.Padding.Split.{more_after_slice, nat_beq-suc, take_slice}

-- The ticks of `WritePump` from the pull of a message to its end. `none` means that the fuel ran out.
unfoldable pub write_out : ℕ → (ℕ → Entropy) → ℕ → List Bytes → Pump → Option (Result (List Bytes))
unfolding write_tick
write_out zero rand k frames p = none
write_out (suc fuel) rand k frames p =
    if ltb 0 (length p.pending)
    then elim (write_tick (rand k) p) [
      | err e ↦ some (err e)
      | ok (frame, after) ↦ write_out fuel rand (suc k) (frames ++ frame ∷ []) after
    ]
    else some (ok frames)

-- A message that is pending is not pulled over.
refill-pending :
    (c : Conn) (pending : Bytes)
    → ltb 0 (length pending) ≡ true
    → refill (record { conn = c; pending = pending }) ≡ record { conn = c; pending = pending }
unfolding refill pull
refill-pending c [] h = cc
refill-pending c (b ∷ pending) h = refl

take_chunk :
    (pending : Bytes) → take (chunk_end pending) pending ≡ take max_payload_per_frame pending
unfolding chunk_end
take_chunk pending = elim (Bool-cases (ltb max_payload_per_frame (length pending))) [
  | inl long ↦ rw long refl
  | inr short ↦
      let fits = not_ltb max_payload_per_frame (length pending) short in
      rw short (take_all (length pending) pending (omega arith) ∙ sym (take_all _ pending fits))
]

drop_chunk :
    (pending : Bytes) → drop (chunk_end pending) pending ≡ drop max_payload_per_frame pending
unfolding chunk_end
drop_chunk pending = elim (Bool-cases (ltb max_payload_per_frame (length pending))) [
  | inl long ↦ rw long refl
  | inr short ↦
      let fits = not_ltb max_payload_per_frame (length pending) short in
      rw short (drop_all (length pending) pending (omega arith) ∙ sym (drop_all _ pending fits))
]

more_after_chunk :
    (pending : Bytes)
    → ltb (chunk_end pending) (length pending) ≡ ltb max_payload_per_frame (length pending)
unfolding chunk_end
more_after_chunk pending = ground arith

inside_pending :
    (offset : ℕ) (message : Bytes)
    → ltb 0 (length (drop offset message)) ≡ ltb offset (length message)
inside_pending offset message = ground (arith, length-drop offset message)

-- A tick with a message pending writes its next 2045 bytes.
tick_pending :
    (r : Entropy) (c : Conn) (pending : Bytes)
    → ltb 0 (length pending) ≡ true
    → write_tick r (record { conn = c; pending = pending }) ≡ (do
      frame ←
          encode_frame r
            (take max_payload_per_frame pending)
            (ltb max_payload_per_frame (length pending))
      ok (frame, record { conn = c; pending = drop max_payload_per_frame pending }))
unfolding write_tick emit
tick_pending r c pending h =
    rw
      (
        refill-pending c pending h,
        h,
        more_after_chunk pending,
        take_chunk pending,
        drop_chunk pending,
      )
      refl

module _ (rand : ℕ → Entropy) (c : Conn) (message : Bytes) where
  write_out-split_loop :
      (fuel k offset : ℕ) (frames : List Bytes)
      → write_out fuel rand k frames (record { conn = c; pending = drop offset message })
        ≡ split_loop fuel rand k offset frames message
  unfolding write_out split_loop
  write_out-split_loop zero k offset frames = refl
  write_out-split_loop (suc fuel) k offset frames =
      elim (Bool-cases (ltb offset (length message))) [
        | inr over ↦ rw (inside_pending offset message, over) refl
        | inl inside ↦
            let again = write_out-split_loop fuel (suc k) (offset + max_payload_per_frame) in
            rw
              (
                inside_pending offset message,
                tick_pending (rand k) c (drop offset message)
                    (inside_pending offset message ∙ inside),
                inside,
                take_slice offset message,
                more_after_slice offset message,
                drop-drop max_payload_per_frame offset message,
              )
              (each
                (encode_frame (rand k) (take max_payload_per_frame (drop offset message))
                  (ltb max_payload_per_frame (length (drop offset message))))
                again)
      ]
    where
      each :
          (e : Result Bytes)
          → ((fs : List Bytes)
              → write_out fuel rand
                  (suc k)
                  fs
                  (record { conn = c; pending = drop (offset + max_payload_per_frame) message })
                ≡ split_loop fuel rand (suc k) (offset + max_payload_per_frame) fs message)
          → (elim (◌>>=◌ {B = Bytes × Pump} e λ frame. ok (
            frame,
            record { conn = c; pending = drop (offset + max_payload_per_frame) message },
          )) [
            | err x ↦ some (err x)
            | ok (frame, after) ↦ write_out fuel rand (suc k) (frames ++ frame ∷ []) after
          ])
            ≡ (elim e [
              | err x ↦ some (err x)
              | ok frame ↦
                  split_loop fuel rand
                    (suc k)
                    (offset + max_payload_per_frame)
                    (frames ++ frame ∷ [])
                    message
            ])
      each (err x) again = refl
      each (ok frame) again = again (frames ++ frame ∷ [])

split_loop_ends :
    (rand : ℕ → Entropy) (message : Bytes) (fuel k offset : ℕ) (frames : List Bytes)
    → length message ≤ fuel + offset
    → (r : Result (List Bytes)) × (split_loop (suc fuel) rand k offset frames message ≡ some r)
unfolding split_loop
split_loop_ends rand message zero k offset frames h =
    (ok frames, rw (ltb-false offset (length message) (omega arith)) refl)
split_loop_ends rand message (suc fuel) k offset frames h =
    elim (Bool-cases (ltb offset (length message))) [
      | inr over ↦ (ok frames, rw over refl)
      | inl inside ↦ rw inside (
          drawn _ λ fs.
            split_loop_ends rand message fuel (suc k) (offset + max_payload_per_frame) fs
              (omega arith))
    ]
  where
    drawn :
        (e : Result Bytes)
        → ((fs : List Bytes)
            → (r : Result (List Bytes)) × (split_loop
                  (suc fuel)
                  rand
                  (suc k)
                  (offset + max_payload_per_frame)
                  fs
                  message
                ≡ some r))
        → (r : Result (List Bytes)) × ((elim e [
          | err x ↦ some (err x)
          | ok frame ↦
              split_loop
                (suc fuel)
                rand
                (suc k)
                (offset + max_payload_per_frame)
                (frames ++ frame ∷ [])
                message
        ])
            ≡ some r)
    drawn (err x) again = (err x, refl)
    drawn (ok frame) again = again (frames ++ frame ∷ [])

-- From the tick that pulls a message of at least one byte from the channel to the tick that writes its
-- end, `WritePump` writes just the frames that `SplitIntoFrames` makes of the message from the same
-- random bytes, or both fail with the same error; the fuel, one more than the bytes of the message, is
-- enough.
pub write_out-split_into_frames :
    (rand : ℕ → Entropy) (c : Conn) (message : Bytes) (queue : List Bytes)
    → message ≢ []
    → let p = refill (record { conn = record c { send = message ∷ queue }; pending = [] }) in
      (r : Result (List Bytes)) × (p.conn.send ≡ queue)
      × (write_out (suc (length message)) rand 0 [] p ≡ some r)
      × (split_into_frames rand message ≡ some r)
unfolding refill pull split_into_frames
write_out-split_into_frames rand c [] queue h = absurd (h refl)
write_out-split_into_frames rand c (b ∷ message) queue h =
    let (r, ends) =
      split_loop_ends rand (b ∷ message) (suc (length message)) 0 0 [] (omega arith) in
    (
      r,
      refl,
      write_out-split_loop rand (record c { send = queue }) (b ∷ message) _ 0 0 [] ∙ ends,
      rw (nat_beq-suc (length message)) ends,
    )
