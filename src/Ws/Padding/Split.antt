-- ===== src/Ws/Padding/Split.antt =====
-- The loop of `SplitIntoFrames`, and what its frames carry.
use bully.Prelude.{
  Bool-cases, List, [], ap, append-nil, append_assoc, arith, drop, drop-drop, drop-ne-nil, drop_all,
  false, inl, inr, length, length-drop, length-take, ltb, ltb→lt, nat_beq, not_ltb, refl, some, suc,
  sym, take, take_all, true, zero, ℕ, ◌++◌, ◌+◌, ◌-◌, ◌/◌, ◌<◌, ◌∙◌, ◌∷◌, ◌≡◌, ◌≢◌, ◌≤◌,
}
use bully.Ws.Padding.{
  Bytes, bytes, decode_frame, frame_size, max_payload_per_frame, ok, slice_end, split_into_frames,
  split_loop,
}
use bully.Ws.Padding.Encode.{decode-encode_frame}

-- The frames carry a message: full, real, each with the next 2045 bytes, all but the last flagged.
abbrev pub Carries : List Bytes → Bytes → Type 0
Carries [] message = message ≡ []
Carries (frame ∷ frames) message =
    (message ≢ [])
    × (length frame ≡ frame_size)
    × (decode_frame frame
        ≡ ok (record {
          payload = take max_payload_per_frame message;
          is_real = true;
          has_more = ltb max_payload_per_frame (length message);
        }))
    × Carries frames (drop max_payload_per_frame message)

pub take_slice :
    (offset : ℕ) (message : Bytes)
    → take (slice_end offset (length message) - offset) (drop offset message)
      ≡ take max_payload_per_frame (drop offset message)
unfolding slice_end
take_slice offset message =
    elim (Bool-cases (ltb (length message) (offset + max_payload_per_frame))) [
      | inl short ↦
          let fits : length (drop offset message) ≤ max_payload_per_frame =
            omega (arith, length-drop offset message, ltb→lt _ _ short) in
          rw short (
            take_all (length message - offset) (drop offset message)
              (omega (arith, length-drop offset message))
            ∙ sym (take_all max_payload_per_frame (drop offset message) fits))
      | inr long ↦
          let whole : offset + max_payload_per_frame - offset ≡ max_payload_per_frame =
            omega arith in
          rw long (ap (λ n. take n (drop offset message)) whole)
    ]

pub more_after_slice :
    (offset : ℕ) (message : Bytes)
    → ltb (slice_end offset (length message)) (length message)
      ≡ ltb max_payload_per_frame (length (drop offset message))
unfolding slice_end
more_after_slice offset message = ground (arith, length-drop offset message)

module _ (f : ℕ → ℕ → ℕ) where
  -- The frames that the loop adds from `offset` on.
  split_loop-Carries :
      (fuel k offset : ℕ) (frames : List Bytes) (message : Bytes)
      → length message - offset < fuel
      → (more : List Bytes) × (split_loop fuel (λ i. bytes (f i)) k offset frames message
          ≡ some (ok (frames ++ more)))
        × Carries more (drop offset message)
  unfolding split_loop
  split_loop-Carries zero k offset frames message h = absurd (omega arith)
  split_loop-Carries (suc fuel) k offset frames message h =
      elim (Bool-cases (ltb offset (length message))) [
        | inr over ↦ (
          [],
          rw over (ap (λ l. some (ok l)) (sym (append-nil frames))),
          drop_all offset message (not_ltb _ _ over),
        )
        | inl inside ↦
            let e =
              decode-encode_frame (f k) (take max_payload_per_frame (drop offset message))
                (ltb max_payload_per_frame (length (drop offset message)))
                (omega (arith, length-take max_payload_per_frame (drop offset message))) in
            let r =
              split_loop-Carries fuel (suc k) (offset + max_payload_per_frame) (frames ++ e.0 ∷ [])
                message (omega (arith, ltb→lt _ _ inside)) in
            (
              e.0 ∷ r.0,
              rw (inside, take_slice offset message, more_after_slice offset message, e.1)
                  (r.1 ∙ ap (λ l. some (ok l)) (append_assoc frames (e.0 ∷ []) r.0)),
              (
                drop-ne-nil offset message (ltb→lt _ _ inside),
                e.2,
                e.3,
                rw (drop-drop max_payload_per_frame offset message) r.2,
              ),
            )
      ]

ne_nil_pos : (message : Bytes) → message ≢ [] → 0 < length message
ne_nil_pos [] h = absurd (h refl)
ne_nil_pos (b ∷ message) h = omega arith

-- The number of frames that carry a message is its length over 2045, rounded up.
pub length-Carries :
    (frames : List Bytes) (message : Bytes)
    → Carries frames message
    → length frames ≡ (length message + 2044) / 2045
length-Carries [] message c = rw c refl
length-Carries (frame ∷ frames) message c = omega (
  arith,
  length-Carries frames (drop max_payload_per_frame message) c.3,
  length-drop max_payload_per_frame message,
  ne_nil_pos message c.0,
)

pub nat_beq-suc : (n : ℕ) → nat_beq (suc n) 0 ≡ false
nat_beq-suc n = ground arith

-- On entropy, `SplitIntoFrames` gives ⌈n / 2045⌉ full frames that carry a
-- message of n > 0 bytes.
pub split_into_frames-Carries :
    (f : ℕ → ℕ → ℕ) (message : Bytes)
    → message ≢ []
    → (frames : List Bytes) × (split_into_frames (λ i. bytes (f i)) message ≡ some (ok frames))
      × Carries frames message
      × (length frames ≡ (length message + 2044) / 2045)
unfolding split_into_frames
split_into_frames-Carries f [] h = absurd (h refl)
split_into_frames-Carries f (b ∷ message) h =
    let r = split_loop-Carries f (suc (length (b ∷ message))) 0 0 [] (b ∷ message) (omega arith) in
    (r.0, rw (nat_beq-suc (length message)) r.1, r.2, length-Carries r.0 (b ∷ message) r.2)
