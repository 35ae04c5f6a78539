-- ===== src/Tests/Frames.antt =====
-- Tests of the frames and of the connections.
use bully.Prelude.{
  All, List, [], arith, false, length, map, refl, some, suc, true, zero, ℕ, ◌*◌, ◌++◌, ◌+◌, ◌-◌,
  ◌/◌, ◌<◌, ◌∷◌, ◌≡◌, ◌≢◌, ◌≤◌, ◌⊎◌,
}
use bully.Tests.{codec, letter, texts_of, write_texts}
use bully.Ws.Conn.{offer, read_pump, refill, send, send_buffer_size, stamp}
use bully.Ws.Conn.Delivery.{Event, connected, handled_in_order, run, sends, step, ticks}
use bully.Ws.Conn.Delivery.Drained.{delivered_in_order, drain, sends_of}
use bully.Ws.Conn.Reading.{IsFrom, binary, read_pump-IsFrom, read_pump-split_into_frames}
use bully.Ws.Conn.Tick.{load}
use bully.Ws.Conn.Written.{write_out, write_out-split_into_frames}
use bully.Ws.Envelope.{Envelope}
use bully.Ws.Padding.{
  Bytes, Entropy, Result, bytes, decode_frame, err, exhausted, fill_frame, frame_size,
  max_payload_per_frame, ok, rand_failed, split_into_frames, tabulate,
}
use bully.Ws.Padding.Ends.{Answered, IsEmptyFrame, split_into_frames_ends}
use bully.Ws.Padding.Split.{Carries}

abbrev noise : ℕ → ℕ → ℕ
noise k i = 31 * k + 7 * i

abbrev short : Bytes
short = 7 ∷ []

-- Longer than a frame.
abbrev long_message : Bytes
long_message = 7 ∷ tabulate 3000 (λ i. i)

small_frame :
    decode_frame (fill_frame (tabulate frame_size (λ i. i)) 3 (7 ∷ 8 ∷ []))
    ≡ ok (record { payload = 7 ∷ 8 ∷ []; is_real = true; has_more = true })
unfolding decode_frame fill_frame tabulate
small_frame = refl

-- The second read of entropy fails.
abbrev one_read : ℕ → Entropy
one_read zero = bytes (noise 0)
one_read (suc k) = exhausted

split_into_frames_ends_example :
    ((frames : List Bytes) × (split_into_frames one_read long_message ≡ some (ok frames))
      × Answered one_read 0 (length frames)
      × (length frames ≡ 1 + (length long_message - 1) / max_payload_per_frame)
      × ((long_message ≡ []) × IsEmptyFrame frames
          ⊎ (long_message ≢ []) × Carries frames long_message))
    ⊎ ((j : ℕ) × (one_read j ≡ exhausted)
        × (j < 1 + (length long_message - 1) / max_payload_per_frame)
        × (split_into_frames one_read long_message ≡ some (err rand_failed)))
split_into_frames_ends_example = split_into_frames_ends one_read long_message

abbrev letter_bytes : Bytes
letter_bytes = write_texts (texts_of letter)

read_pump-split_into_frames_example :
    (frames : List Bytes) × (split_into_frames (λ k. bytes (noise k)) letter_bytes
      ≡ some (ok frames))
    × (read_pump codec "xxx" [] (map binary frames) ≡ stamp "xxx" letter ∷ [])
read_pump-split_into_frames_example =
    read_pump-split_into_frames codec "xxx" noise letter letter_bytes refl

read_pump-IsFrom_example :
    All
      (IsFrom "xxx")
      (read_pump codec "xxx" [] (binary (7 ∷ []) ∷ record { is_binary = false; raw = [] } ∷ []))
read_pump-IsFrom_example =
    read_pump-IsFrom codec "xxx" [] (binary (7 ∷ []) ∷ record { is_binary = false; raw = [] } ∷ [])

-- Two letters, with ticks before, between and after.
abbrev mixed : List Event
mixed =
    ticks (bytes (noise 0))
    ∷ sends letter
    ∷ ticks (bytes (noise 1))
    ∷ sends (stamp "xx" letter)
    ∷ []

handled_in_order_example :
    let l = run codec "xxx" (connected "xx") (mixed ++ ticks exhausted ∷ []) in
    (rest : List Envelope) × (l.handled ++ rest ≡ map (stamp "xxx") l.sent)
handled_in_order_example = handled_in_order codec "xxx" "xx" (mixed ++ ticks exhausted ∷ [])

abbrev two_sends : List Event
two_sends = sends letter ∷ sends (stamp "xx" letter) ∷ []

two_sends_fit : length (sends_of codec "xxx" two_sends) ≤ send_buffer_size
two_sends_fit = omega arith

two_sends_open : (run codec "xxx" (connected "xx") two_sends).is_open ≡ true
unfolding run step connected
two_sends_open = refl

two_sends-load : load (run codec "xxx" (connected "xx") two_sends).pump ≡ 51
unfolding run step connected send offer
two_sends-load = refl

abbrev noises : ℕ → List (ℕ → ℕ)
noises zero = []
noises (suc n) = noise n ∷ noises n

length-noises : length (noises 60) ≡ 60
length-noises = refl

delivered_in_order_example :
    (run codec "xxx" (connected "xx") (two_sends ++ drain codec "xxx" (noises 60))).handled
    ≡ map (stamp "xxx") (sends_of codec "xxx" two_sends)
delivered_in_order_example =
    delivered_in_order codec "xxx" "xx" two_sends (noises 60) two_sends_fit two_sends_open
      (omega (arith, two_sends-load, length-noises))

write_out-split_into_frames_example :
    let p = refill (record {
      conn = record { user_id = "x"; send = (7 ∷ 8 ∷ []) ∷ short ∷ [] };
      pending = [];
    }) in
    (r : Result (List Bytes)) × (p.conn.send ≡ short ∷ [])
    × (write_out 3 (λ k. bytes (noise k)) 0 [] p ≡ some r)
    × (split_into_frames (λ k. bytes (noise k)) (7 ∷ 8 ∷ []) ≡ some r)
write_out-split_into_frames_example =
    write_out-split_into_frames (λ k. bytes (noise k)) (record { user_id = "x"; send = [] })
      (7 ∷ 8 ∷ []) (short ∷ []) (λ e. cc)
