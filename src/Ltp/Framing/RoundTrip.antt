-- ===== src/Ltp/Framing/RoundTrip.antt =====
-- A framed message comes out as it went in, and what follows it stays.
use qpsk_b.Base.{
  ℕ, ◌+◌, ◌*◌, ◌%◌, ◌^◌, ◌≤◌, ◌<◌, ◌≡◌, ◌∙◌, some, List, ◌++◌, length, length-append,
  take-append_length, drop-append_length, arith,
}
use qpsk_b.Base.Bits.{shr, low_bits, bit_or_disjoint}
use qpsk_b.Base.Result.{ok, err}
use qpsk_b.Ltp.Segment.{out_of_bounds}
use qpsk_b.Ltp.Framing.{length_prefix, frame_message, shl32, read_prefix, extract_framed_message}

-- Four bytes joined by `|` are the number in base 256.
pub read_prefix_lem :
    (b0 b1 b2 b3 : ℕ)
    → b0 < 256
    → b1 < 256
    → b2 < 256
    → b3 < 256
    → read_prefix b0 b1 b2 b3 ≡ b0 * 2 ^ 24 + b1 * 2 ^ 16 + b2 * 2 ^ 8 + b3
read_prefix_lem b0 b1 b2 b3 h0 h1 h2 h3 =
    let s0 : shl32 b0 24 ≡ b0 * 2 ^ 24 = omega arith in
    let s1 : shl32 b1 16 ≡ b1 * 2 ^ 16 = omega arith in
    let s2 : shl32 b2 8 ≡ b2 * 2 ^ 8 = omega arith in
    let t1 : b0 * 2 ^ 24 + b1 * 2 ^ 16 ≡ (b0 * 256 + b1) * 2 ^ 16 = omega arith in
    let t2 : (b0 * 256 + b1) * 2 ^ 16 + b2 * 2 ^ 8 ≡ (b0 * 65536 + b1 * 256 + b2) * 2 ^ 8 =
      omega arith in
    rw
      (
        s0,
        s1,
        s2,
        bit_or_disjoint 24 b0 (b1 * 2 ^ 16) (omega arith),
        t1,
        bit_or_disjoint 16 (b0 * 256 + b1) (b2 * 2 ^ 8) (omega arith),
        t2,
        bit_or_disjoint 8 (b0 * 65536 + b1 * 256 + b2) b3 (omega arith),
      )
      (omega arith)

pub prefix_of_length :
    (len : ℕ)
    → len < 2 ^ 32
    → read_prefix
        (low_bits (shr len 24) 8)
        (low_bits (shr len 16) 8)
        (low_bits (shr len 8) 8)
        (low_bits len 8)
      ≡ len
prefix_of_length len h =
    read_prefix_lem _ _ _ _ (omega arith) (omega arith) (omega arith) (omega arith) ∙ omega arith

-- `extract_framed_message` takes a framed message off the front of a buffer, and leaves the bytes
-- behind it, where the message has fewer than 2^32 - 4 bytes.
pub extract-frame_message :
    (bytes rest : List ℕ)
    → length bytes + 4 < 2 ^ 32
    → extract_framed_message (frame_message bytes ++ rest) ≡ ok (some (bytes, rest))
unfolding extract_framed_message frame_message
extract-frame_message bytes rest h =
    let small : length bytes % 2 ^ 32 ≡ length bytes = omega arith in
    rw (small, prefix_of_length (length bytes) (omega arith))
      (ground (
        arith,
        length-append bytes rest,
        take-append_length bytes rest,
        drop-append_length bytes rest,
      ))

-- A frame whose length is within four of 2^32 is not waited for: the sum in the test wraps, and the
-- copy runs past the end of any buffer shorter than the frame.
pub extract_wraps :
    (len : ℕ) (body : List ℕ)
    → 2 ^ 32 ≤ len + 4
    → len < 2 ^ 32
    → length body < len
    → extract_framed_message (length_prefix len ++ body) ≡ err out_of_bounds
unfolding extract_framed_message length_prefix
extract_wraps len body h1 h2 h3 = rw (prefix_of_length len h2) (ground arith)
