-- ===== src/Phy/FecDecoder.antt =====
-- include/qpsk_b200/fec.h and src/fec_decoder.cpp: depuncturing, the Viterbi decoder over the 128
-- values of the shift register, and the count of corrected errors. `FecDecoder::parity` has the body
-- of `FecEncoder::parity`. The length that `decode` is given is a frame's 16-bit payload length, so
-- no reservation of a vector is refused. The survivors are kept as one row for a step, the last step
-- first, where the source has one vector with the rows one after another.
pub mod Trellis
pub mod Branches
pub mod Paths
pub mod Optimal
pub mod Noiseless
pub mod RoundTrip
use qpsk_b.Base.{
  ℕ, zero, suc, ◌+◌, ◌*◌, ◌/◌, ◌%◌, ◌^◌, List, [], ◌∷◌, ltb, leb, ◌==◌, if◌then◌else◌, get_or, set,
  replicate, take, drop, bit_and, bit_or, bit_xor,
}
use qpsk_b.Base.Bits.{shr, add64}
use qpsk_b.Phy.Frame.{payload_bits}
use qpsk_b.Phy.FecEncoder.{
  CodeRate, rate_1_2, rate_3_4, gen_0, gen_1, tail_bits, puncture_pattern, parity, kept, encode,
}

abbrev pub erasure : ℕ
erasure = 2

abbrev pub full_states : ℕ
full_states = 128

abbrev pub inf_metric : ℕ
inf_metric = 0xFFFFFF

unfoldable pub rate_half_bits : ℕ → ℕ
rate_half_bits original_byte_length = 2 * (original_byte_length * 8 + tail_bits) % 2 ^ 64

unfoldable pub actual_coded_bits : CodeRate → ℕ → ℕ
actual_coded_bits rate_1_2 original_byte_length = rate_half_bits original_byte_length
actual_coded_bits rate_3_4 original_byte_length =
    rate_half_bits original_byte_length / 6 * 4 + kept (rate_half_bits original_byte_length % 6)

-- Step 1. The loops break once the count is reached; the count is not 0.
unfoldable pub unpack : CodeRate → List ℕ → ℕ → List ℕ
unpack code_rate coded_data original_byte_length =
    take (actual_coded_bits code_rate original_byte_length) (payload_bits coded_data)

-- Step 2: `n` rounds of the loop from position `i` on, with the coded bits that are left.
unfoldable pub depuncture : ℕ → ℕ → List ℕ → List ℕ
depuncture zero i bits = []
depuncture (suc n) i bits =
    let is_kept = puncture_pattern (i % 6) == 1 in
    (if is_kept then get_or bits 0 erasure else erasure)
    ∷ depuncture n (i + 1) (if is_kept then drop 1 bits else bits)

unfoldable pub depunctured : CodeRate → List ℕ → ℕ → List ℕ
depunctured rate_1_2 coded_data original_byte_length =
    unpack rate_1_2 coded_data original_byte_length
depunctured rate_3_4 coded_data original_byte_length =
    depuncture (rate_half_bits original_byte_length) 0
      (unpack rate_3_4 coded_data original_byte_length)

-- `depunctured[step * 2]` and `depunctured[step * 2 + 1]` for each step.
unfoldable pub pairs : List ℕ → List (ℕ × ℕ)
pairs [] = []
pairs (rx0 ∷ []) = []
pairs (rx0 ∷ rx1 ∷ bits) = (rx0, rx1) ∷ pairs bits

-- A row of the transition table: `next_state`, `out0` and `out1`.
unfoldable pub next_state : ℕ → ℕ → ℕ
next_state s b = bit_and (bit_or (shr s 1) (b * 2 ^ 6)) 0x7F

unfoldable pub mismatch : ℕ → ℕ → ℕ
mismatch rx out = if rx == erasure then 0 else (if rx == out then 0 else 1)

unfoldable pub branch_metric : ℕ × ℕ → ℕ → ℕ
branch_metric rx new_reg =
    mismatch rx.0 (parity new_reg gen_0) + mismatch rx.1 (parity new_reg gen_1)

-- `curr_metrics`, and the row of the step in `survivor`.
pub record Column : Type 0 where
  pub curr_metrics : List ℕ
  pub survivor : List ℕ

-- One branch of the trellis.
unfoldable pub relax : ℕ × ℕ → List ℕ → ℕ → ℕ → Column → Column
relax rx prev_metrics s b c =
    let candidate = get_or prev_metrics s inf_metric + branch_metric rx (next_state s b) in
    if ltb candidate (get_or c.curr_metrics (next_state s b) inf_metric)
    then record {
      curr_metrics = set c.curr_metrics (next_state s b) candidate;
      survivor = set c.survivor (next_state s b) s;
    }
    else c

unfoldable pub visit : ℕ × ℕ → List ℕ → ℕ → Column → Column
visit rx prev_metrics s c =
    if leb inf_metric (get_or prev_metrics s inf_metric)
    then c
    else relax rx prev_metrics s 1 (relax rx prev_metrics s 0 c)

-- The loop over `n` states from `s` on.
unfoldable pub visit_states : ℕ × ℕ → List ℕ → ℕ → ℕ → Column → Column
visit_states rx prev_metrics zero s c = c
visit_states rx prev_metrics (suc n) s c =
    visit_states rx prev_metrics n (s + 1) (visit rx prev_metrics s c)

unfoldable pub empty_column : Column
empty_column = record {
  curr_metrics = replicate full_states inf_metric;
  survivor = replicate full_states 0;
}

unfoldable pub column : ℕ × ℕ → List ℕ → Column
column rx prev_metrics = visit_states rx prev_metrics full_states 0 empty_column

-- Step 3: the loop over the steps.
unfoldable pub forward : List (ℕ × ℕ) → List ℕ → List (List ℕ) → List ℕ × List (List ℕ)
forward [] prev_metrics survivor = (prev_metrics, survivor)
forward (rx ∷ rxs) prev_metrics survivor =
    let c = column rx prev_metrics in forward rxs c.curr_metrics (c.survivor ∷ survivor)

unfoldable pub initial_metrics : List ℕ
initial_metrics = 0 ∷ replicate 127 inf_metric

-- Step 4: the loop over `n` states from `s` on for the best final state, and the way back.
unfoldable pub best_loop : List ℕ → ℕ → ℕ → ℕ → ℕ → ℕ
best_loop prev_metrics zero s best state = state
best_loop prev_metrics (suc n) s best state =
    let metric = get_or prev_metrics s inf_metric in
    let is_better = ltb metric best in
    best_loop prev_metrics n (s + 1) (if is_better then metric else best)
      (if is_better then s else state)

unfoldable pub best_state : List ℕ → ℕ
best_state prev_metrics = best_loop prev_metrics 127 1 (get_or prev_metrics 0 inf_metric) 0

unfoldable pub trace_back : List (List ℕ) → ℕ → List ℕ → List ℕ
trace_back [] state decoded_bits = decoded_bits
trace_back (row ∷ rows) state decoded_bits =
    trace_back rows (get_or row state 0) (bit_and (shr state 6) 1 ∷ decoded_bits)

unfoldable pub viterbi : List (ℕ × ℕ) → List ℕ
viterbi rxs =
    let (metrics, survivor) = forward rxs initial_metrics [] in
    trace_back survivor (best_state metrics) []

-- Step 5: the bits of a byte, and the byte that the bits run out in.
unfoldable pub pack_bytes : ℕ → ℕ → List ℕ → List ℕ
pack_bytes byte b [] = if ltb 0 b then byte ∷ [] else []
pack_bytes byte b (bit ∷ bits) =
    let next = bit_or (byte * 2) bit % 256 in
    let is_full = b + 1 == 8 in
    let rest = pack_bytes (if is_full then 0 else next) (if is_full then 0 else b + 1) bits in
    if is_full then next ∷ rest else rest

-- Step 6. A byte has eight bits, so eight rounds empty it.
unfoldable pub ones : ℕ → ℕ → ℕ
ones zero diff = 0
ones (suc fuel) diff =
    let rest = ones fuel (shr diff 1) in if diff == 0 then 0 else bit_and diff 1 + rest

unfoldable pub errors_between : List ℕ → List ℕ → ℕ
errors_between [] coded_data = 0
errors_between (re_encoded ∷ rest) [] = 0
errors_between (re_encoded ∷ rest) (coded ∷ coded_data) =
    ones 8 (bit_xor re_encoded coded) + errors_between rest coded_data

unfoldable pub decoded_bytes : CodeRate → List ℕ → ℕ → List ℕ
decoded_bytes code_rate coded_data original_byte_length = pack_bytes 0 0 (
    take (original_byte_length * 8 % 2 ^ 64)
      (viterbi (pairs (depunctured code_rate coded_data original_byte_length))))

pub record FecDecoder : Type 0 where
  pub code_rate : CodeRate
  pub corrected_errors : ℕ

unfoldable pub decode : FecDecoder → List ℕ → ℕ → List ℕ × FecDecoder
decode d coded_data original_byte_length =
    let output = decoded_bytes d.code_rate coded_data original_byte_length in
    let errors = errors_between (encode d.code_rate output) coded_data in
    (output, record d { corrected_errors = add64 d.corrected_errors errors })

unfoldable pub reset_error_count : FecDecoder → FecDecoder
reset_error_count d = record d { corrected_errors = 0 }
