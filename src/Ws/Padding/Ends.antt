-- ===== src/Ws/Padding/Ends.antt =====
-- How `SplitIntoFrames` of padding.go ends, whatever its reads of entropy meet.
use bully.Prelude.{
  Bool, Bool-cases, List, Option, [], ap, append-nil, append_assoc, arith, drop, drop-drop,
  drop-ne-nil, drop_all, false, inl, inr, length, length-take, ltb, ltb-false, ltb→lt, nat_beq,
  not_ltb, refl, some, suc, sym, take, true, zero, ℕ, ◌*◌, ◌++◌, ◌+◌, ◌-◌, ◌/◌, ◌<◌, ◌∙◌, ◌∷◌, ◌≡◌,
  ◌≢◌, ◌≤◌, ◌⊎◌,
}
use bully.Ws.Padding.{
  Bytes, Entropy, Result, bytes, decode_frame, encode_frame, err, exhausted, frame_size,
  max_payload_per_frame, ok, rand_failed, rand_read, split_into_frames, split_loop,
}
use bully.Ws.Padding.Encode.{decode-encode_frame}
use bully.Ws.Padding.Split.{Carries, length-Carries, more_after_slice, nat_beq-suc, take_slice}

encode_frame_exhausted :
    (payload : Bytes) (more : Bool)
    → length payload ≤ max_payload_per_frame
    → encode_frame exhausted payload more ≡ err rand_failed
unfolding encode_frame rand_read
encode_frame_exhausted payload more fits =
    rw (ltb-false max_payload_per_frame (length payload) fits)

Entropy-cases : (e : Entropy) → (e ≡ exhausted) ⊎ ((f : ℕ → ℕ) × (e ≡ bytes f))
Entropy-cases exhausted = inl refl
Entropy-cases (bytes f) = inr (f, refl)

not_exhausted : (e : Entropy) (f : ℕ → ℕ) → e ≡ bytes f → e ≢ exhausted
not_exhausted e f h k = cc

-- One frame, of full size, with an empty payload and no flag but that it is real.
abbrev pub IsEmptyFrame : List Bytes → Type 0
IsEmptyFrame frames =
    (frame : Bytes) × (frames ≡ frame ∷ [])
    × (length frame ≡ frame_size)
    × (decode_frame frame ≡ ok (record { payload = []; is_real = true; has_more = false }))

module _ (rand : ℕ → Entropy) where
  -- The reads from the `k`-th on, as many as given, are all answered.
  abbrev pub Answered : ℕ → ℕ → Type 0
  Answered k n = (i : ℕ) → k ≤ i → i < k + n → rand i ≢ exhausted

  Answered-suc : (k n : ℕ) (f : ℕ → ℕ) → rand k ≡ bytes f → Answered (suc k) n → Answered k (suc n)
  Answered-suc k n f e h i low high = elim (Bool-cases (nat_beq i k)) [
    | inl here ↦ let at_k : i ≡ k = ground arith in not_exhausted (rand i) f (ap rand at_k ∙ e)
    | inr later ↦ h i (ground arith) (omega arith)
  ]

  -- The ways in which the loop ends.
  abbrev LoopEnds : ℕ → ℕ → List Bytes → Bytes → Option (Result (List Bytes)) → Type 0
  LoopEnds k offset frames message r =
      ((more : List Bytes) × (r ≡ some (ok (frames ++ more)))
        × Carries more (drop offset message)
        × Answered k (length more))
      ⊎ ((j : ℕ) × (rand j ≡ exhausted)
          × (offset + j * max_payload_per_frame < length message + k * max_payload_per_frame)
          × (r ≡ some (err rand_failed)))

  module _ (fuel k offset : ℕ) (frames : List Bytes) (message : Bytes) where
    -- One round of the loop, if the rounds after it end.
    round_ends :
        offset < length message
        → ((fs : List Bytes)
            → LoopEnds
                (suc k)
                (offset + max_payload_per_frame)
                fs
                message
                (split_loop fuel rand (suc k) (offset + max_payload_per_frame) fs message))
        → LoopEnds k offset frames message
            (elim (encode_frame
              (rand k)
              (take max_payload_per_frame (drop offset message))
              (ltb max_payload_per_frame (length (drop offset message)))) [
                | err e ↦ some (err e)
                | ok frame ↦
                    split_loop fuel rand
                      (suc k)
                      (offset + max_payload_per_frame)
                      (frames ++ frame ∷ [])
                      message
              ])
    round_ends inside again =
        let payload = take max_payload_per_frame (drop offset message) in
        let more_left = ltb max_payload_per_frame (length (drop offset message)) in
        let fits : length payload ≤ max_payload_per_frame =
          omega (arith, length-take max_payload_per_frame (drop offset message)) in
        elim (Entropy-cases (rand k)) [
          | inl none_left ↦ inr (
            k,
            none_left,
            omega arith,
            rw (none_left, encode_frame_exhausted payload more_left fits) refl,
          )
          | inr (f, e) ↦
              let c = decode-encode_frame f payload more_left fits in
              rw (e, c.1)
                (elim (again (frames ++ c.0 ∷ [])) [
                  | inl (more, ends, carried, reads) ↦ inl (
                    c.0 ∷ more,
                    ends ∙ ap (λ l. some (ok l)) (append_assoc frames (c.0 ∷ []) more),
                    (
                      drop-ne-nil offset message inside,
                      c.2,
                      c.3,
                      rw (drop-drop max_payload_per_frame offset message) carried,
                    ),
                    Answered-suc k (length more) f e reads,
                  )
                  | inr (j, none_left, early, why) ↦ inr (j, none_left, omega arith, why)
                ])
        ]

  split_loop-LoopEnds :
      (fuel k offset : ℕ) (frames : List Bytes) (message : Bytes)
      → length message - offset < fuel
      → LoopEnds k offset frames message (split_loop fuel rand k offset frames message)
  unfolding split_loop
  split_loop-LoopEnds zero k offset frames message h = absurd (omega arith)
  split_loop-LoopEnds (suc fuel) k offset frames message h =
      elim (Bool-cases (ltb offset (length message))) [
        | inr over ↦ inl (
          [],
          rw over (ap (λ l. some (ok l)) (sym (append-nil frames))),
          drop_all offset message (not_ltb _ _ over),
          λ i low high. absurd (omega arith),
        )
        | inl inside ↦
            rw (inside, take_slice offset message, more_after_slice offset message)
              (round_ends fuel k offset frames message (ltb→lt _ _ inside) λ fs.
                split_loop-LoopEnds fuel (suc k) (offset + max_payload_per_frame) fs message
                  (omega (arith, ltb→lt _ _ inside)))
      ]

-- `SplitIntoFrames` ends on every message, whatever its reads of entropy meet: either the reads that it
-- makes are all answered, one for each frame, and the frames carry the message, ⌈n / 2045⌉ of them for
-- n > 0 bytes and one with an empty payload for none; or a read fails, among those that the message
-- needs, and the error is that of the read.
pub split_into_frames_ends :
    (rand : ℕ → Entropy) (message : Bytes)
    → ((frames : List Bytes) × (split_into_frames rand message ≡ some (ok frames))
        × Answered rand 0 (length frames)
        × (length frames ≡ 1 + (length message - 1) / max_payload_per_frame)
        × ((message ≡ []) × IsEmptyFrame frames ⊎ (message ≢ []) × Carries frames message))
      ⊎ ((j : ℕ) × (rand j ≡ exhausted)
          × (j < 1 + (length message - 1) / max_payload_per_frame)
          × (split_into_frames rand message ≡ some (err rand_failed)))
unfolding split_into_frames
split_into_frames_ends rand [] = elim (Entropy-cases (rand 0)) [
  | inl none_left ↦ inr (
    0,
    none_left,
    omega arith,
    rw (none_left, encode_frame_exhausted [] false (omega arith)) refl,
  )
  | inr (f, e) ↦
      let c = decode-encode_frame f [] false (omega arith) in
      inl (
        c.0 ∷ [],
        rw (e, c.1) refl,
        Answered-suc rand 0 0 f e (λ i low high. absurd (omega arith)),
        omega arith,
        inl (refl, (c.0, refl, c.2, c.3)),
      )
]
split_into_frames_ends rand (b ∷ message) =
    rw (nat_beq-suc (length message))
      (elim (split_loop-LoopEnds rand (suc (length (b ∷ message))) 0 0 [] (b ∷ message)
        (omega arith)) [
          | inl (more, ends, carried, reads) ↦ inl (
            more,
            ends,
            reads,
            omega (arith, length-Carries more (b ∷ message) carried),
            inr (λ e. cc, carried),
          )
          | inr (j, none_left, early, why) ↦ inr (j, none_left, omega arith, why)
        ])
