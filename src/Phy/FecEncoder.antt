-- ===== src/Phy/FecEncoder.antt =====
-- include/qpsk_b200/fec.h and src/fec_encoder.cpp: the convolutional encoder, its puncturing, and the
-- length of its output. The two code rates are all that there are, so the constructor does not throw.
pub mod Length
pub mod Packing
use qpsk_b.Base.{
  ℕ, zero, suc, ◌+◌, ◌-◌, ◌*◌, ◌/◌, ◌%◌, ◌^◌, List, [], ◌∷◌, ◌++◌, ltb, ◌==◌, if◌then◌else◌, length,
  get_or, replicate, bit_and, bit_or, bit_xor,
}
use qpsk_b.Base.Bits.{shr}
use qpsk_b.Phy.Frame.{payload_bits}

pub data CodeRate : Type 0 where
  rate_1_2 rate_3_4 : CodeRate

-- `K`, `GEN_0`, `GEN_1`, `TAIL_BITS`, `PUNCTURE_PATTERN` and `PUNCTURE_PERIOD`.
abbrev pub gen_0 : ℕ
gen_0 = 0x79

abbrev pub gen_1 : ℕ
gen_1 = 0x5B

abbrev pub tail_bits : ℕ
tail_bits = 6

abbrev pub puncture_pattern : ℕ → ℕ
puncture_pattern i = get_or (1 ∷ 1 ∷ 0 ∷ 1 ∷ 1 ∷ 0 ∷ []) i 0

unfoldable pub parity : ℕ → ℕ → ℕ
parity value mask =
    let v = bit_and value mask in
    let v = bit_xor v (shr v 4) in
    let v = bit_xor v (shr v 2) in let v = bit_xor v (shr v 1) in bit_and v 1

-- Steps 1 and 2: the bits of the bytes, and the tail.
unfoldable pub input_bits : List ℕ → List ℕ
input_bits bytes = payload_bits bytes ++ replicate tail_bits 0

-- The shift register after a bit.
unfoldable pub shift : ℕ → ℕ → ℕ
shift shift_reg bit = bit_and (bit_or (shr shift_reg 1) (bit * 2 ^ 6)) 0x7F

-- Step 3.
unfoldable pub rate_half : ℕ → List ℕ → List ℕ
rate_half shift_reg [] = []
rate_half shift_reg (bit ∷ bits) =
    parity (shift shift_reg bit) gen_0
    ∷ parity (shift shift_reg bit) gen_1
    ∷ rate_half (shift shift_reg bit) bits

-- Step 4: the loop from position `i` on.
unfoldable pub puncture : ℕ → List ℕ → List ℕ
puncture i [] = []
puncture i (bit ∷ bits) =
    let rest = puncture (i + 1) bits in if puncture_pattern (i % 6) == 1 then bit ∷ rest else rest

-- Step 5: the loop, and the bits that are left at its end.
unfoldable pub pack : ℕ → ℕ → List ℕ → List ℕ
pack current_byte bit_count [] =
    if ltb 0 bit_count then current_byte * 2 ^ (8 - bit_count) % 256 ∷ [] else []
pack current_byte bit_count (bit ∷ bits) =
    let byte = bit_or (current_byte * 2) bit % 256 in
    let is_full = bit_count + 1 == 8 in
    let rest = pack (if is_full then 0 else byte) (if is_full then 0 else bit_count + 1) bits in
    if is_full then byte ∷ rest else rest

unfoldable pub coded_bits : CodeRate → List ℕ → List ℕ
coded_bits rate_1_2 bits = bits
coded_bits rate_3_4 bits = puncture 0 bits

unfoldable pub encode : CodeRate → List ℕ → List ℕ
encode code_rate bytes = pack 0 0 (coded_bits code_rate (rate_half 0 (input_bits bytes)))

-- The kept bits of a part of a period.
unfoldable pub kept : ℕ → ℕ
kept zero = 0
kept (suc i) = kept i + puncture_pattern i

-- The sums are of 64 bits.
unfoldable pub coded_length : CodeRate → ℕ → ℕ
coded_length rate_1_2 input_length = (2 * (input_length * 8 + tail_bits) + 7) % 2 ^ 64 / 8
coded_length rate_3_4 input_length =
    let rate_half_bits = 2 * (input_length * 8 + tail_bits) % 2 ^ 64 in
    (rate_half_bits / 6 * 4 + kept (rate_half_bits % 6) + 7) / 8
