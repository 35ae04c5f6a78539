-- ===== src/Ws/Padding.antt =====
-- padding.go: messages travel in frames of one fixed size, so that their length does not show.
-- A byte is a number. `crypto/rand` is an input: each read either fails or gives a stream of bytes.
pub mod Encode
pub mod Split
pub mod Ends
use bully.Prelude.{
  Bool, List, Option, [], bit_and, bit_or, drop, false, get_or, if◌then◌else◌, length, ltb, nat_beq,
  none, not, set, some, suc, take, zero, ℕ, ◌%◌, ◌*◌, ◌++◌, ◌+◌, ◌-◌, ◌/◌, ◌∷◌,
}
use bully.Db.{◌>>◌}

abbrev pub Bytes : Type 0
Bytes = List ℕ

abbrev pub frame_size : ℕ
frame_size = 2048

abbrev pub frame_header_bytes : ℕ
frame_header_bytes = 3

abbrev pub max_payload_per_frame : ℕ
max_payload_per_frame = frame_size - frame_header_bytes

abbrev pub flag_is_real : ℕ
flag_is_real = 1

abbrev pub flag_has_more : ℕ
flag_has_more = 2

-- The errors that the functions of the file return.
pub data FrameError : Type 0 where
  payload_too_large rand_failed unexpected_size corrupt_length : FrameError

pub data Result {ℓ} (A : Type ℓ) : Type ℓ where
  ok : A → Result A
  err : FrameError → Result A

infixl 5 ◌>>=◌
abbrev pub ◌>>=◌ {ℓ κ} : {A : Type ℓ} {B : Type κ} → Result A → (A → Result B) → Result B
ok a >>= f = f a
err e >>= f = err e

-- What one `rand.Read` meets: an error, or the bytes that it will write.
pub data Entropy : Type 0 where
  exhausted : Entropy
  bytes : (ℕ → ℕ) → Entropy

unfoldable pub tabulate : ℕ → (ℕ → ℕ) → Bytes
tabulate zero f = []
tabulate (suc n) f = f 0 % 256 ∷ tabulate n (λ i. f (suc i))

-- `rand.Read(frame)` fills a buffer of the given length.
unfoldable pub rand_read : Entropy → ℕ → Result Bytes
rand_read exhausted n = err rand_failed
rand_read (bytes f) n = ok (tabulate n f)

-- Go's `copy(dst, src)`: as many bytes as the shorter of the two has.
unfoldable pub copy : Bytes → Bytes → Bytes
copy [] src = []
copy (d ∷ dst) [] = d ∷ dst
copy (d ∷ dst) (s ∷ src) = s ∷ copy dst src

-- `binary.BigEndian.PutUint16` at frame[1:3].
unfoldable pub put_uint16 : Bytes → ℕ → Bytes
put_uint16 frame v = set (set frame 1 (v / 256 % 256)) 2 (v % 256)

-- The writes into a frame that the random bytes have filled.
unfoldable pub fill_frame : Bytes → ℕ → Bytes → Bytes
unfolding put_uint16 copy
fill_frame frame flags payload =
    let headed = put_uint16 (set frame 0 flags) (length payload % 65536) in
    take frame_header_bytes headed ++ copy (drop frame_header_bytes headed) payload

unfoldable pub encode_frame : Entropy → Bytes → Bool → Result Bytes
encode_frame rand payload has_more =
    if ltb max_payload_per_frame (length payload) then err payload_too_large else do
      frame ← rand_read rand frame_size
      let flags = if has_more then bit_or flag_is_real flag_has_more else flag_is_real
      ok (fill_frame frame flags payload)

unfoldable pub dummy_frame : Entropy → Result Bytes
dummy_frame rand = do frame ← rand_read rand frame_size; ok (set frame 0 0)

pub record Decoded : Type 0 where
  pub payload : Bytes
  pub is_real : Bool
  pub has_more : Bool

unfoldable pub decode_frame : Bytes → Result Decoded
decode_frame frame =
    if not (nat_beq (length frame) frame_size)
    then err unexpected_size
    else let flags = get_or frame 0 0 in
      let len = get_or frame 1 0 * 256 + get_or frame 2 0 in
      if ltb max_payload_per_frame len
      then err corrupt_length
      else ok (record {
        payload = take len (drop frame_header_bytes frame);
        is_real = not (nat_beq (bit_and flags flag_is_real) 0);
        has_more = not (nat_beq (bit_and flags flag_has_more) 0);
      })

-- `end`, cut down to the length of the message.
unfoldable pub slice_end : ℕ → ℕ → ℕ
slice_end offset len =
    if ltb len (offset + max_payload_per_frame) then len else offset + max_payload_per_frame

-- The loop of `SplitIntoFrames`, from `offset` on; the k-th frame draws from `rand k`. `none` means
-- that the fuel ran out.
unfoldable pub split_loop :
    ℕ → (ℕ → Entropy) → ℕ → ℕ → List Bytes → Bytes → Option (Result (List Bytes))
split_loop zero rand k offset frames message = none
split_loop (suc fuel) rand k offset frames message =
    if ltb offset (length message)
    then (let end = slice_end offset (length message) in
        let has_more = ltb end (length message) in
        elim (encode_frame (rand k) (take (end - offset) (drop offset message)) has_more) [
          | err e ↦ some (err e)
          | ok frame ↦
              split_loop fuel rand (suc k) (offset + max_payload_per_frame) (frames ++ frame ∷ [])
                message
        ])
    else some (ok frames)

unfoldable pub split_into_frames : (ℕ → Entropy) → Bytes → Option (Result (List Bytes))
split_into_frames rand message =
    if nat_beq (length message) 0
    then some (do frame ← encode_frame (rand 0) [] false; ok (frame ∷ []))
    else split_loop (suc (length message)) rand 0 0 [] message
