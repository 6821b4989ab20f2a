-- ===== src/Phy/FecEncoder/Length.antt =====
-- How long the output of the encoder is.
use qpsk_b.Base.{
  ℕ, zero, suc, ◌+◌, ◌*◌, ◌/◌, ◌%◌, ◌^◌, ◌<◌, ◌≡◌, refl, ap, ◌∙◌, false, bit_or, List, [], ◌∷◌,
  ◌++◌, inl, inr, Bool-cases, ◌==◌, length, length-append, replicate, arith,
}
use qpsk_b.Phy.Frame.{payload_bits}
use qpsk_b.Phy.Frame.Bits.{length-payload_bits}
use qpsk_b.Phy.FecEncoder.{
  CodeRate, rate_1_2, rate_3_4, puncture_pattern, rate_half, shift, puncture, pack, coded_bits,
  encode, kept, coded_length, input_bits,
}

pub length-rate_half :
    (shift_reg : ℕ) (bits : List ℕ) → length (rate_half shift_reg bits) ≡ 2 * length bits
unfolding rate_half
length-rate_half s [] = refl
length-rate_half s (bit ∷ bits) = omega (arith, length-rate_half (shift s bit) bits)

length-pack :
    (byte n : ℕ) (bits : List ℕ) → n < 8 → length (pack byte n bits) ≡ (n + length bits + 7) / 8
unfolding pack
length-pack byte n [] h = ground arith
length-pack byte n (bit ∷ bits) h = elim (Bool-cases (n + 1 == 8)) [
  | inl t ↦ rw t (let rest = length-pack 0 0 bits (omega arith) in ground arith)
  | inr t ↦ rw t (
      let rest = length-pack (bit_or (byte * 2) bit % 256) (n + 1) bits (ground arith) in
      rest ∙ omega arith)
]

-- The bits kept of the first `n`.
kept_before : ℕ → ℕ
kept_before n = n / 6 * 4 + kept (n % 6)

kept_before_at : (n d m : ℕ) → n / 6 ≡ d → n % 6 ≡ m → kept_before n ≡ d * 4 + kept m
unfolding kept_before
kept_before_at n d m p q = rw (p, q) refl

kept_before_step : (i r : ℕ) → i % 6 ≡ r → kept_before (i + 1) ≡ kept_before i + puncture_pattern r
unfolding kept
kept_before_step i zero e = omega (
  arith,
  kept_before_at (i + 1) (i / 6) 1 (omega arith) (omega arith),
  kept_before_at i (i / 6) 0 refl e,
)
kept_before_step i (suc zero) e = omega (
  arith,
  kept_before_at (i + 1) (i / 6) 2 (omega arith) (omega arith),
  kept_before_at i (i / 6) 1 refl e,
)
kept_before_step i (suc (suc zero)) e = omega (
  arith,
  kept_before_at (i + 1) (i / 6) 3 (omega arith) (omega arith),
  kept_before_at i (i / 6) 2 refl e,
)
kept_before_step i (suc (suc (suc zero))) e = omega (
  arith,
  kept_before_at (i + 1) (i / 6) 4 (omega arith) (omega arith),
  kept_before_at i (i / 6) 3 refl e,
)
kept_before_step i (suc (suc (suc (suc zero)))) e = omega (
  arith,
  kept_before_at (i + 1) (i / 6) 5 (omega arith) (omega arith),
  kept_before_at i (i / 6) 4 refl e,
)
kept_before_step i (suc (suc (suc (suc (suc zero))))) e = omega (
  arith,
  kept_before_at (i + 1) (i / 6 + 1) 0 (omega arith) (omega arith),
  kept_before_at i (i / 6) 5 refl e,
)
kept_before_step i (suc (suc (suc (suc (suc (suc r)))))) e = absurd (omega arith)

pattern_bit : (r : ℕ) → (puncture_pattern r == 1) ≡ false → puncture_pattern r ≡ 0
pattern_bit zero h = absurd (ground arith)
pattern_bit (suc zero) h = absurd (ground arith)
pattern_bit (suc (suc zero)) h = refl
pattern_bit (suc (suc (suc zero))) h = absurd (ground arith)
pattern_bit (suc (suc (suc (suc zero)))) h = absurd (ground arith)
pattern_bit (suc (suc (suc (suc (suc zero))))) h = refl
pattern_bit (suc (suc (suc (suc (suc (suc r)))))) h = refl

length-puncture :
    (i : ℕ) (bits : List ℕ)
    → kept_before i + length (puncture i bits) ≡ kept_before (i + length bits)
unfolding puncture
length-puncture i [] = let q : i + 0 ≡ i = omega arith in rw q (omega arith)
length-puncture i (bit ∷ bits) =
    let rest = length-puncture (i + 1) bits in
    let step = kept_before_step i (i % 6) refl in
    let same : i + 1 + length bits ≡ i + suc (length bits) = omega arith in
    let later = ap kept_before same in
    elim (Bool-cases (puncture_pattern (i % 6) == 1)) [
      | inl t ↦ rw t (let one : puncture_pattern (i % 6) ≡ 1 = ground arith in omega arith)
      | inr t ↦
          rw t (let none : puncture_pattern (i % 6) ≡ 0 = pattern_bit (i % 6) t in omega arith)
    ]

-- The bits that are kept of a whole output.
pub length-punctured :
    (bits : List ℕ) → length (puncture 0 bits) ≡ length bits / 6 * 4 + kept (length bits % 6)
unfolding kept
length-punctured bits = omega (
  arith,
  length-puncture 0 bits,
  kept_before_at 0 0 0 refl refl,
  kept_before_at (0 + length bits) (length bits / 6) (length bits % 6) (omega arith) (omega arith),
)

length-coded_bits :
    (code_rate : CodeRate) (bits : List ℕ) (n : ℕ)
    → length bits ≡ 2 * (n * 8 + 6)
    → n < 2 ^ 59
    → (length (coded_bits code_rate bits) + 7) / 8 ≡ coded_length code_rate n
unfolding coded_bits coded_length puncture kept
length-coded_bits rate_1_2 bits n h l = omega arith
length-coded_bits rate_3_4 bits n h l =
    let count = length-puncture 0 bits in
    let wide : 2 * (n * 8 + 6) % 2 ^ 64 ≡ length bits = omega arith in
    rw wide (
      omega (
        arith,
        kept_before_at 0 0 0 refl refl,
        kept_before_at (0 + length bits) (length bits / 6) (length bits % 6) (omega arith)
            (omega arith),
      ))

-- For fewer than 2^59 bytes of input, the output of `encode` has the number of bytes that
-- `coded_length` says, at either code rate.
pub length-encode :
    (code_rate : CodeRate) (bytes : List ℕ)
    → length bytes < 2 ^ 59
    → length (encode code_rate bytes) ≡ coded_length code_rate (length bytes)
unfolding encode input_bits
length-encode code_rate bytes h =
    let bits = rate_half 0 (payload_bits bytes ++ replicate 6 0) in
    let size : length bits ≡ 2 * (length bytes * 8 + 6) = omega (
      arith,
      length-rate_half 0 (payload_bits bytes ++ replicate 6 0),
      length-append (payload_bits bytes) (replicate 6 0),
      length-payload_bits bytes,
    ) in
    length-pack 0 0 (coded_bits code_rate bits) (omega arith)
    ∙ ap (λ (t : ℕ). t / 8) (omega arith)
    ∙ length-coded_bits code_rate bits (length bytes) size h
