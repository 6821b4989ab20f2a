-- ===== src/Phy/FecDecoder/Noiseless.antt =====
-- What the decoder makes of a codeword that arrives unchanged, at either code rate.
use qpsk_b.Base.{
  ℕ, zero, suc, ◌+◌, ◌*◌, ◌%◌, ◌<◌, ◌≡◌, refl, ap, ◌∙◌, sym, ◌⊎◌, inl, inr, true, List, [], ◌∷◌,
  length, All, if◌then◌else◌, Bool-cases, ◌==◌, arith,
}
use qpsk_b.Phy.Frame.Bits.{bit_and-le}
use qpsk_b.Phy.FecEncoder.{
  CodeRate, rate_1_2, rate_3_4, puncture_pattern, parity, gen_0, gen_1, shift, rate_half, puncture,
}
use qpsk_b.Phy.FecEncoder.Length.{length-rate_half}
use qpsk_b.Phy.FecDecoder.{
  erasure, inf_metric, depuncture, pairs, next_state, branch_metric, viterbi,
}
use qpsk_b.Phy.FecDecoder.Trellis.{
  IsBit, next_state-lt, outputs_0, outputs_1, mismatch_self, mismatch-erasure, mismatch-eq-zero,
}
use qpsk_b.Phy.FecDecoder.Paths.{distance}
use qpsk_b.Phy.FecDecoder.Optimal.{mismatches, distance-eq-mismatches, length-pairs, viterbi-IsPath}

-- The codeword with erasures at the punctured positions, from position `i` on.
mask : ℕ → List ℕ → List ℕ
mask i [] = []
mask i (x ∷ xs) = (if puncture_pattern (i % 6) == 1 then x else erasure) ∷ mask (i + 1) xs

depuncture-eq-mask : (i : ℕ) (xs : List ℕ) → depuncture (length xs) i (puncture i xs) ≡ mask i xs
unfolding depuncture puncture mask
depuncture-eq-mask i [] = refl
depuncture-eq-mask i (x ∷ xs) = elim (Bool-cases (puncture_pattern (i % 6) == 1)) [
  | inl t ↦ rw t (ap (λ l. x ∷ l) (depuncture-eq-mask (i + 1) xs))
  | inr t ↦ rw t (ap (λ l. erasure ∷ l) (depuncture-eq-mask (i + 1) xs))
]

length-mask : (i : ℕ) (xs : List ℕ) → length (mask i xs) ≡ length xs
unfolding mask
length-mask i [] = refl
length-mask i (x ∷ xs) = ap suc (length-mask (i + 1) xs)

mismatches-mask : (i : ℕ) (xs : List ℕ) → mismatches (mask i xs) xs ≡ 0
unfolding mismatches mask
mismatches-mask i [] = refl
mismatches-mask i (x ∷ xs) = elim (Bool-cases (puncture_pattern (i % 6) == 1)) [
  | inl t ↦ rw t (omega (arith, mismatch_self x, mismatches-mask (i + 1) xs))
  | inr t ↦ rw t (omega (arith, mismatch-erasure x, mismatches-mask (i + 1) xs))
]

mismatches_self : (xs : List ℕ) → mismatches xs xs ≡ 0
unfolding mismatches
mismatches_self [] = refl
mismatches_self (x ∷ xs) = omega (arith, mismatch_self x, mismatches_self xs)

-- One of the two received values is a bit.
abbrev IsDecided : ℕ × ℕ → Type 0
IsDecided rx = (rx.0 < 2) ⊎ (rx.1 < 2)

pub parity-lt : (v m : ℕ) → parity v m < 2
unfolding parity
parity-lt v m = omega (arith, bit_and-le)

rate_half-IsDecided : (reg : ℕ) (bits : List ℕ) → All IsDecided (pairs (rate_half reg bits))
unfolding rate_half pairs
rate_half-IsDecided reg [] = tt
rate_half-IsDecided reg (b ∷ bits) =
    (inl (parity-lt (shift reg b) gen_0), rate_half-IsDecided (shift reg b) bits)

kept_at :
    (i r : ℕ)
    → i % 6 ≡ r
    → i % 2 ≡ 0
    → ((puncture_pattern (i % 6) == 1) ≡ true) ⊎ ((puncture_pattern ((i + 1) % 6) == 1) ≡ true)
kept_at i zero e h = inl (rw e refl)
kept_at i (suc zero) e h = absurd (omega arith)
kept_at i (suc (suc zero)) e h = inr (let n : (i + 1) % 6 ≡ 3 = omega arith in rw n refl)
kept_at i (suc (suc (suc zero))) e h = absurd (omega arith)
kept_at i (suc (suc (suc (suc zero)))) e h = inl (rw e refl)
kept_at i (suc (suc (suc (suc (suc r))))) e h = absurd (omega arith)

mask-IsDecided :
    (i reg : ℕ) (bits : List ℕ) → i % 2 ≡ 0 → All IsDecided (pairs (mask i (rate_half reg bits)))
unfolding rate_half pairs mask
mask-IsDecided i reg [] h = tt
mask-IsDecided i reg (b ∷ bits) h = (
  elim (kept_at i (i % 6) refl h) [
    | inl t ↦ inl (rw t (parity-lt (shift reg b) gen_0))
    | inr t ↦ inr (rw t (parity-lt (shift reg b) gen_1))
  ],
  mask-IsDecided (i + 1 + 1) (shift reg b) bits (omega arith),
)

clash :
    (reg : ℕ) (rx : ℕ × ℕ)
    → reg < 128
    → IsDecided rx
    → branch_metric rx (next_state reg 0) ≡ 0
    → branch_metric rx (next_state reg 1) ≡ 0
    → ⊥
unfolding branch_metric
clash reg rx h (inl d) p q = omega (
  arith,
  outputs_0 reg h,
  mismatch-eq-zero rx.0 (parity (next_state reg 0) gen_0) d (omega arith),
  mismatch-eq-zero rx.0 (parity (next_state reg 1) gen_0) d (omega arith),
)
clash reg rx h (inr d) p q = omega (
  arith,
  outputs_1 reg h,
  mismatch-eq-zero rx.1 (parity (next_state reg 0) gen_1) d (omega arith),
  mismatch-eq-zero rx.1 (parity (next_state reg 1) gen_1) d (omega arith),
)

-- Where a bit is received, at most one bit sent agrees with it.
same_bit :
    (reg : ℕ) (rx : ℕ × ℕ) (b c : ℕ)
    → reg < 128
    → IsDecided rx
    → IsBit b
    → IsBit c
    → branch_metric rx (next_state reg b) ≡ 0
    → branch_metric rx (next_state reg c) ≡ 0
    → b ≡ c
same_bit reg rx zero zero h d i j p q = refl
same_bit reg rx (suc zero) (suc zero) h d i j p q = refl
same_bit reg rx zero (suc zero) h d i j p q = absurd (clash reg rx h d p q)
same_bit reg rx (suc zero) zero h d i j p q = absurd (clash reg rx h d q p)
same_bit reg rx (suc (suc b)) c h d i j p q = absurd (omega arith)
same_bit reg rx zero (suc (suc c)) h d i j p q = absurd (omega arith)
same_bit reg rx (suc zero) (suc (suc c)) h d i j p q = absurd (omega arith)

unique_path :
    (reg : ℕ) (rxs : List (ℕ × ℕ)) (bits sent : List ℕ)
    → reg < 128
    → All IsDecided rxs
    → All IsBit bits
    → All IsBit sent
    → length bits ≡ length rxs
    → length sent ≡ length rxs
    → distance reg rxs bits ≡ 0
    → distance reg rxs sent ≡ 0
    → bits ≡ sent
unfolding distance
unique_path reg [] [] [] h d i j l m p q = refl
unique_path reg [] [] (c ∷ sent) h d i j l m p q = absurd (omega arith)
unique_path reg [] (b ∷ bits) sent h d i j l m p q = absurd (omega arith)
unique_path reg (rx ∷ rxs) [] sent h d i j l m p q = absurd (omega arith)
unique_path reg (rx ∷ rxs) (b ∷ bits) [] h d i j l m p q = absurd (omega arith)
unique_path reg (rx ∷ rxs) (b ∷ bits) (c ∷ sent) h d i j l m p q =
    let e : b ≡ c = same_bit reg rx b c h d.0 i.0 j.0 (omega arith) (omega arith) in
    let moved : distance (next_state reg b) rxs sent ≡ 0 =
      ap (λ b. distance (next_state reg b) rxs sent) e ∙ omega arith in
    let rest =
      unique_path (next_state reg b) rxs bits sent (next_state-lt reg b) d.1 i.1 j.1 (omega arith)
        (omega arith) (omega arith) moved in
    cc

-- The bits between the two ends, as the Viterbi loop sees them.
unfoldable pub seen : CodeRate → List ℕ → List ℕ
seen rate_1_2 codeword = codeword
seen rate_3_4 codeword = depuncture (length codeword) 0 (puncture 0 codeword)

length-seen : (r : CodeRate) (codeword : List ℕ) → length (seen r codeword) ≡ length codeword
unfolding seen
length-seen rate_1_2 codeword = refl
length-seen rate_3_4 codeword = ap length (depuncture-eq-mask 0 codeword) ∙ length-mask 0 codeword

mismatches-seen : (r : CodeRate) (codeword : List ℕ) → mismatches (seen r codeword) codeword ≡ 0
unfolding seen
mismatches-seen rate_1_2 codeword = mismatches_self codeword
mismatches-seen rate_3_4 codeword =
    ap (λ s. mismatches s codeword) (depuncture-eq-mask 0 codeword) ∙ mismatches-mask 0 codeword

seen-IsDecided : (r : CodeRate) (bits : List ℕ) → All IsDecided (pairs (seen r (rate_half 0 bits)))
unfolding seen
seen-IsDecided rate_1_2 bits = rate_half-IsDecided 0 bits
seen-IsDecided rate_3_4 bits =
    rw (depuncture-eq-mask 0 (rate_half 0 bits)) (mask-IsDecided 0 0 bits refl)

-- A codeword that arrives unchanged is decoded to the bits that were sent.
pub viterbi-rate_half :
    (r : CodeRate) (bits : List ℕ)
    → All IsBit bits
    → 2 * length bits < inf_metric
    → viterbi (pairs (seen r (rate_half 0 bits))) ≡ bits
viterbi-rate_half r bits i short =
    let codeword = rate_half 0 bits in
    let wide : length (seen r codeword) ≡ 2 * length bits =
      length-seen r codeword ∙ length-rate_half 0 bits in
    let rxs = pairs (seen r codeword) in
    let many : length rxs ≡ length bits = length-pairs (seen r codeword) (length bits) wide in
    let exact : distance 0 rxs bits ≡ 0 =
      distance-eq-mismatches 0 (seen r codeword) bits wide ∙ mismatches-seen r codeword in
    let path = viterbi-IsPath rxs bits i (sym many) (omega arith) in
    unique_path 0 rxs (viterbi rxs) bits (omega arith) (seen-IsDecided r bits) path.0 i path.1
      (sym many) (omega arith) exact
