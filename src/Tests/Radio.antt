-- ===== src/Tests/Radio.antt =====
-- A frame of three bytes, a coded block, and a ring buffer of four slots.
use mathlib.Core.Option
use qpsk_b.Base.{
  ℕ, ◌+◌, ◌*◌, ◌≡◌, refl, true, none, some, List, [], ◌∷◌, ◌++◌, ◌==◌, if◌then◌else◌, length, drop,
  bit_and, arith,
}
use qpsk_b.Base.Result.{ok}
use qpsk_b.Phy.Frame.{
  Frame, FrameHeader, FrameBuilder, build_frame, next_header, parse, compute_crc32, crc_loop,
  crc32_table, crc_rounds,
}
use qpsk_b.Phy.Frame.RoundTrip.{frame_crc, bits_with, carrying, parse-build_frame, parse-any_crc}
use qpsk_b.Phy.SpscQueue.{SpscQueue, try_push, try_pop}
use qpsk_b.Phy.SpscQueue.Fifo.{items, take_first, items-try_push_pop}

-- The check value of CRC-32.
check_value : compute_crc32 (49 ∷ 50 ∷ 51 ∷ 52 ∷ 53 ∷ 54 ∷ 55 ∷ 56 ∷ 57 ∷ []) ≡ 0xCBF43926
unfolding compute_crc32 crc_loop crc32_table crc_rounds
check_value = refl

abbrev builder : FrameBuilder
builder = record { preamble = 1 ∷ 0 ∷ 1 ∷ []; seq_num = 4095 }

abbrev bytes : List ℕ
bytes = 0 ∷ 200 ∷ 255 ∷ []

abbrev parsed : Frame
parsed = record {
  header = record {
    payload_length = 3;
    padding_bits = 1;
    sequence_number = bit_and 4095 0x0FFF;
    fec_enabled = true;
    fec_code_rate = 1;
  };
  payload = bytes;
  crc = frame_crc (next_header builder bytes 1 true 1) bytes;
  crc_valid = true;
}

parse-build_frame_example : parse (drop 3 (build_frame builder bytes 1 true 1).0) ≡ ok (some parsed)
parse-build_frame_example =
    parse-build_frame builder bytes 1 true 1 (omega arith, (omega arith, (omega arith, tt)))
      (omega arith) (omega arith)

abbrev header : FrameHeader
header = parsed.header

-- A frame with a CRC of 0.
parse-any_crc_example :
    parse (bits_with header bytes 0)
    ≡ ok (
        if frame_crc header bytes == 0
        then some (record (carrying header bytes 0) { crc_valid = true })
        else none)
parse-any_crc_example =
    parse-any_crc header bytes 0 (omega arith, omega arith, omega arith, omega arith)
      (omega arith, (omega arith, (omega arith, tt))) (omega arith)

-- Two items, in the last slot and the first.
abbrev queue : SpscQueue ℕ
queue = record { capacity = 4; slots = λ i. 10 * i; head = 1; tail = 3 }

items-try_push_pop_example :
    (Option.map items (try_push 7 queue)
      ≡ (if length (items queue) + 1 == 4 then none else some (items queue ++ 7 ∷ [])))
    × (Option.map (λ (popped : ℕ × SpscQueue ℕ). (popped.0, items popped.1)) (try_pop queue)
        ≡ take_first (items queue))
items-try_push_pop_example = items-try_push_pop 7 queue (omega arith, omega arith)
