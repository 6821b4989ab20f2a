-- ===== src/Ltp/Framing.antt =====
-- src/ltp_cla/convergence_layer_adapter.cpp: messages on a TCP stream behind a four-byte length, and
-- the loops of `run_rx` and of src/ltp_cla/tcp_ingress.cpp that take them out of a buffer.
pub mod RoundTrip
pub mod Stream
use qpsk_b.Base.{
  ℕ, zero, suc, ◌+◌, ◌*◌, ◌%◌, ◌^◌, Option, none, some, List, [], ◌∷◌, ◌++◌, ltb, leb,
  if◌then◌else◌, length, take, drop, bit_or,
}
use qpsk_b.Base.Bits.{shr, low_bits}
use qpsk_b.Base.Result.{Result, ok, err, ◌>>=◌}
use qpsk_b.Ltp.Segment.{Fault, out_of_bounds, endless}

-- The four bytes of `len`, big-endian.
unfoldable pub length_prefix : ℕ → List ℕ
length_prefix len =
    low_bits (shr len 24) 8 ∷ low_bits (shr len 16) 8 ∷ low_bits (shr len 8) 8 ∷ low_bits len 8 ∷ []

unfoldable pub frame_message : List ℕ → List ℕ
unfolding length_prefix
frame_message bytes = let len = length bytes % 2 ^ 32 in length_prefix len ++ bytes

-- `x << k` of a `uint32_t`.
abbrev pub shl32 : ℕ → ℕ → ℕ
shl32 x k = x * 2 ^ k % 2 ^ 32

abbrev pub read_prefix : ℕ → ℕ → ℕ → ℕ → ℕ
read_prefix b0 b1 b2 b3 = bit_or (bit_or (bit_or (shl32 b0 24) (shl32 b1 16)) (shl32 b2 8)) b3

-- The message and the buffer without it, or `none` where no message is complete. `4 + len` is a
-- 32-bit sum, while the iterators advance by `len`: past the end that is undefined behaviour.
unfoldable pub extract_framed_message : List ℕ → Result Fault (Option (List ℕ × List ℕ))
extract_framed_message (b0 ∷ b1 ∷ b2 ∷ b3 ∷ body) =
    let len = read_prefix b0 b1 b2 b3 in
    if ltb (4 + length body) ((4 + len) % 2 ^ 32)
    then ok none
    else if leb len (length body)
    then ok (some (take len body, drop len body))
    else err out_of_bounds
extract_framed_message _ = ok none

-- `while (extract_framed_message(buffer, msg)) callback(msg)`: the messages in order, and the buffer
-- that is left. The first argument is fuel.
unfoldable pub extract_loop : ℕ → List ℕ → Result Fault (List (List ℕ) × List ℕ)
unfolding extract_framed_message
extract_loop zero buffer = err endless
extract_loop (suc fuel) buffer = do
  found ← extract_framed_message buffer
  elim found [
    | none ↦ ok ([], buffer)
    | some (msg, rest) ↦ do (msgs, left) ← extract_loop fuel rest; ok (msg ∷ msgs, left)
  ]

unfoldable pub extract_all : List ℕ → Result Fault (List (List ℕ) × List ℕ)
unfolding extract_loop
extract_all buffer = extract_loop (suc (length buffer)) buffer

-- One `read`: the bytes join the buffer, and the complete messages are delivered.
unfoldable pub on_bytes : List ℕ → List ℕ → Result Fault (List (List ℕ) × List ℕ)
on_bytes buffer read_buf = extract_all (buffer ++ read_buf)

-- The reads of a connection, one after the other.
unfoldable pub on_reads : List ℕ → List (List ℕ) → Result Fault (List (List ℕ) × List ℕ)
on_reads buffer [] = ok ([], buffer)
on_reads buffer (read_buf ∷ reads) = do
  (msgs, left) ← on_bytes buffer read_buf
  (more, last) ← on_reads left reads
  ok (msgs ++ more, last)
