-- ===== src/Ws/Padding/Encode.antt =====
-- What the frames of padding.go look like: their length, and what decoding them gives.
use bully.Prelude.{
  Bool, [], ap, arith, bit_and, bit_or, drop, false, if◌then◌else◌, length, length-drop, ltb-false,
  nat_beq, not, refl, set, suc, take, true, zero, ℕ, ◌%◌, ◌*◌, ◌+◌, ◌/◌, ◌<◌, ◌↔◌, ◌∙◌, ◌∷◌, ◌≡◌,
  ◌≤◌, ◌⊎◌,
}
use bully.Ws.Padding.{
  Bytes, Decoded, Entropy, bytes, copy, corrupt_length, decode_frame, dummy_frame, encode_frame,
  err, exhausted, fill_frame, flag_has_more, flag_is_real, frame_size, max_payload_per_frame, ok,
  payload_too_large, rand_failed, rand_read, tabulate,
}

pub length-tabulate : (n : ℕ) (f : ℕ → ℕ) → length (tabulate n f) ≡ n
unfolding tabulate
length-tabulate zero f = refl
length-tabulate (suc n) f = ap suc (length-tabulate n (λ i. f (suc i)))

length-copy : (dst src : Bytes) → length (copy dst src) ≡ length dst
unfolding copy
length-copy [] src = refl
length-copy (d ∷ dst) [] = refl
length-copy (d ∷ dst) (s ∷ src) = ap suc (length-copy dst src)

take-copy : (dst src : Bytes) → length src ≤ length dst → take (length src) (copy dst src) ≡ src
unfolding copy
take-copy dst [] h = refl
take-copy [] (s ∷ src) h = absurd (omega arith)
take-copy (d ∷ dst) (s ∷ src) h = ap (◌∷◌ s) (take-copy dst src (omega arith))

-- A frame of three bytes or more keeps its length, and shows its header.
fill_frame_shape :
    (frame : Bytes) (flags : ℕ) (payload : Bytes)
    → 3 ≤ length frame
    → fill_frame frame flags payload
      ≡ flags
        ∷ (length payload % 65536 / 256 % 256)
        ∷ (length payload % 65536 % 256)
        ∷ copy (drop 3 frame) payload
unfolding fill_frame
fill_frame_shape [] flags payload h = absurd (omega arith)
fill_frame_shape (a ∷ []) flags payload h = absurd (omega arith)
fill_frame_shape (a ∷ b ∷ []) flags payload h = absurd (omega arith)
fill_frame_shape (a ∷ b ∷ c ∷ rest) flags payload h = refl

abbrev pub flags_of : Bool → ℕ
flags_of more = if more then bit_or flag_is_real flag_has_more else flag_is_real

pub length-fill_frame :
    (frame : Bytes) (flags : ℕ) (payload : Bytes)
    → 3 ≤ length frame
    → length (fill_frame frame flags payload) ≡ length frame
length-fill_frame frame flags payload h =
    rw (fill_frame_shape frame flags payload h)
      (omega (arith, length-copy (drop 3 frame) payload, length-drop 3 frame))

decode_shape :
    (flags hi lo : ℕ) (body : Bytes)
    → length body ≡ max_payload_per_frame
    → hi * 256 + lo ≤ max_payload_per_frame
    → decode_frame (flags ∷ hi ∷ lo ∷ body)
      ≡ ok (record {
        payload = take (hi * 256 + lo) body;
        is_real = not (nat_beq (bit_and flags flag_is_real) 0);
        has_more = not (nat_beq (bit_and flags flag_has_more) 0);
      })
unfolding decode_frame
decode_shape flags hi lo body full fits = ground arith

-- `PutUint16` and `Uint16` are inverse on the lengths that occur.
uint16_round_trip :
    (n : ℕ) → n ≤ max_payload_per_frame → n % 65536 / 256 % 256 * 256 + n % 65536 % 256 ≡ n
uint16_round_trip n h = omega arith

flags_of_real : (more : Bool) → not (nat_beq (bit_and (flags_of more) flag_is_real) 0) ≡ true
flags_of_real true = refl
flags_of_real false = refl

flags_of_more : (more : Bool) → not (nat_beq (bit_and (flags_of more) flag_has_more) 0) ≡ more
flags_of_more true = refl
flags_of_more false = refl

-- A frame of full size that carries a payload decodes to that payload and its flags.
decode-fill_frame :
    (frame payload : Bytes) (more : Bool)
    → length frame ≡ frame_size
    → length payload ≤ max_payload_per_frame
    → decode_frame (fill_frame frame (flags_of more) payload)
      ≡ ok (record { payload = payload; is_real = true; has_more = more })
unfolding decode_frame
decode-fill_frame frame payload more full fits =
    let n : ℕ = length payload in
    let size = uint16_round_trip n fits in
    rw (fill_frame_shape frame (flags_of more) payload (omega arith)) (
      decode_shape (flags_of more) _ _ (copy (drop 3 frame) payload)
        (omega (arith, length-copy (drop 3 frame) payload, length-drop 3 frame)) (omega arith)
      ∙ cc (
        size,
        flags_of_real more,
        flags_of_more more,
        take-copy (drop 3 frame) payload (omega (arith, length-drop 3 frame)),
      ))

-- On entropy, a payload that fits is written into a frame of exactly 2048 bytes, which decodes to
-- the payload, marked real, with the flag that it was given.
pub decode-encode_frame :
    (f : ℕ → ℕ) (payload : Bytes) (more : Bool)
    → length payload ≤ max_payload_per_frame
    → (frame : Bytes) × (encode_frame (bytes f) payload more ≡ ok frame)
      × (length frame ≡ frame_size)
      × (decode_frame frame ≡ ok (record { payload = payload; is_real = true; has_more = more }))
unfolding encode_frame rand_read
decode-encode_frame f payload more fits =
    let full : length (tabulate frame_size f) ≡ frame_size = length-tabulate frame_size f in
    (
      fill_frame (tabulate frame_size f) (flags_of more) payload,
      rw (ltb-false max_payload_per_frame (length payload) fits),
      length-fill_frame (tabulate frame_size f) (flags_of more) payload (omega arith) ∙ full,
      decode-fill_frame (tabulate frame_size f) payload more full fits,
    )

-- `EncodeFrame` fails exactly when the payload is too large, whatever the entropy, or when there is
-- no entropy; in that order.
pub encode_frame_errors :
    (rand : Entropy) (payload : Bytes) (more : Bool)
    → ((encode_frame rand payload more ≡ err payload_too_large)
        ↔ (max_payload_per_frame < length payload))
      × ((encode_frame rand payload more ≡ err rand_failed)
          ↔ ((length payload ≤ max_payload_per_frame) × (rand ≡ exhausted)))
unfolding encode_frame rand_read
encode_frame_errors exhausted payload more = grind arith
encode_frame_errors (bytes f) payload more = grind arith

decode-set_zero :
    (frame : Bytes)
    → length frame ≡ frame_size
    → (length (set frame 0 0) ≡ frame_size)
      × ((decode_frame (set frame 0 0) ≡ err corrupt_length)
          ⊎ ((d : Decoded) × (decode_frame (set frame 0 0) ≡ ok d) × (d.is_real ≡ false)))
unfolding decode_frame
decode-set_zero [] full = absurd (omega arith)
decode-set_zero (x ∷ frame) full = ground arith

-- On entropy `DummyFrame` gives a frame of the size of any other, and a reader finds it either
-- corrupt or not real; without entropy it fails.
pub decode-dummy_frame :
    (f : ℕ → ℕ)
    → (frame : Bytes) × (dummy_frame (bytes f) ≡ ok frame)
      × (length frame ≡ frame_size)
      × ((decode_frame frame ≡ err corrupt_length)
          ⊎ ((d : Decoded) × (decode_frame frame ≡ ok d) × (d.is_real ≡ false)))
      × (dummy_frame exhausted ≡ err rand_failed)
unfolding dummy_frame rand_read
decode-dummy_frame f =
    let z = decode-set_zero (tabulate frame_size f) (length-tabulate frame_size f) in
    (set (tabulate frame_size f) 0 0, refl, z.0, z.1, refl)
