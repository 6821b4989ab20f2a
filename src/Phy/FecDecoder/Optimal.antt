-- ===== src/Phy/FecDecoder/Optimal.antt =====
-- The Viterbi decoder finds a nearest codeword: `viterbi`, against all sequences of bits.
use qpsk_b.Base.{
  ℕ, zero, suc, ◌+◌, ◌-◌, ◌*◌, ◌≤◌, ◌<◌, ◌≡◌, refl, ap, ◌∙◌, sym, inl, inr, List, [], ◌∷◌, length,
  All, ltb, ltb→lt, ltb→le, Bool-cases, ◌==◌, ==_iff, arith,
}
use qpsk_b.Phy.FecEncoder.{rate_half, parity, gen_0, gen_1}
use qpsk_b.Phy.FecDecoder.{
  inf_metric, pairs, next_state, mismatch, branch_metric, forward, initial_metrics, best_loop,
  best_state, viterbi,
}
use qpsk_b.Phy.FecDecoder.Trellis.{IsBit, branch_metric-le, next_state-eq-shift}
use qpsk_b.Phy.FecDecoder.Branches.{metric}
use qpsk_b.Phy.FecDecoder.Paths.{distance, ends, ends-lt, survey}

-- The bits of `sent` that `received` contradicts. An erasure contradicts nothing.
unfoldable pub mismatches : List ℕ → List ℕ → ℕ
mismatches [] sent = 0
mismatches (rx ∷ received) [] = 0
mismatches (rx ∷ received) (out ∷ sent) = mismatch rx out + mismatches received sent

module _ (metrics : List ℕ) where
  best_loop-le :
      (n s best state : ℕ)
      → best ≡ metric metrics state
      → ((t : ℕ) → t < s → best ≤ metric metrics t)
      → (t : ℕ) → t < s + n
      → metric metrics (best_loop metrics n s best state) ≤ metric metrics t
  unfolding best_loop
  best_loop-le zero s best state e below t h = omega (arith, below t (omega arith))
  best_loop-le (suc n) s best state e below t h = elim (Bool-cases (ltb (metric metrics s) best)) [
    | inl lt ↦ rw lt (
        best_loop-le n (s + 1) (metric metrics s) s refl
          (λ u hu. elim (Bool-cases (u == s)) [
            | inl q ↦ omega (arith, ap (metric metrics) ((==_iff u s).0 q))
            | inr q ↦
                let earlier : u < s = ground arith in omega (arith, below u earlier, ltb→lt _ _ lt)
          ])
          t (omega arith))
    | inr ge ↦ rw ge (
        best_loop-le n (s + 1) best state e
          (λ u hu. elim (Bool-cases (u == s)) [
            | inl q ↦ omega (arith, ap (metric metrics) ((==_iff u s).0 q), ltb→le _ _ ge)
            | inr q ↦ let earlier : u < s = ground arith in below u earlier
          ])
          t (omega arith))
  ]

  -- No state has a smaller metric.
  best_state-le : (t : ℕ) → t < 128 → metric metrics (best_state metrics) ≤ metric metrics t
  unfolding best_state
  best_state-le t h =
      best_loop-le 127 1 (metric metrics 0) 0 refl
        (λ u hu. let q : u ≡ 0 = omega arith in omega (arith, ap (metric metrics) q)) t h

distance-le :
    (reg : ℕ) (rxs : List (ℕ × ℕ)) (bits : List ℕ) → distance reg rxs bits ≤ 2 * length rxs
unfolding distance
distance-le reg [] bits = omega arith
distance-le reg (rx ∷ rxs) [] = omega arith
distance-le reg (rx ∷ rxs) (b ∷ bits) =
    omega (arith, branch_metric-le rx (next_state reg b), distance-le (next_state reg b) rxs bits)

-- A distance in the trellis counts the bits of the codeword that are contradicted.
pub distance-eq-mismatches :
    (reg : ℕ) (received bits : List ℕ)
    → length received ≡ 2 * length bits
    → distance reg (pairs received) bits ≡ mismatches received (rate_half reg bits)
unfolding distance pairs mismatches rate_half branch_metric
distance-eq-mismatches reg [] bits h = refl
distance-eq-mismatches reg (rx0 ∷ received) [] h = absurd (omega arith)
distance-eq-mismatches reg (rx0 ∷ []) (b ∷ bits) h = absurd (omega arith)
distance-eq-mismatches reg (rx0 ∷ rx1 ∷ received) (b ∷ bits) h = omega (
  arith,
  distance-eq-mismatches (next_state reg b) received bits (omega arith),
  ap (λ r. mismatch rx0 (parity r gen_0)) (next_state-eq-shift reg b),
  ap (λ r. mismatch rx1 (parity r gen_1)) (next_state-eq-shift reg b),
  ap (λ r. mismatches received (rate_half r bits)) (next_state-eq-shift reg b),
)

pub length-pairs :
    (received : List ℕ) (n : ℕ) → length received ≡ 2 * n → length (pairs received) ≡ n
unfolding pairs
length-pairs [] n h = omega arith
length-pairs (rx0 ∷ []) n h = absurd (omega arith)
length-pairs (rx0 ∷ rx1 ∷ received) n h = omega (arith, length-pairs received (n - 1) (omega arith))

-- The way back starts at the best final state.
pub viterbi-IsPath :
    (rxs : List (ℕ × ℕ)) (bits : List ℕ)
    → All IsBit bits
    → length bits ≡ length rxs
    → 2 * length rxs < inf_metric
    → All IsBit (viterbi rxs)
      × (length (viterbi rxs) ≡ length rxs)
      × (distance 0 rxs (viterbi rxs) ≤ distance 0 rxs bits)
unfolding viterbi
viterbi-IsPath rxs bits i l short =
    let metrics = (forward rxs initial_metrics []).0 in
    let s = survey rxs in
    let least = s.least bits i l (omega (arith, distance-le 0 rxs bits)) in
    let best = best_state-le metrics (ends 0 bits) (ends-lt 0 bits (omega arith)) in
    let path = s.attained (best_state metrics) (omega (arith, distance-le 0 rxs bits)) in
    (path.is_bits, path.as_long, omega (arith, path.costs))

-- From fewer than 2^24 - 1 received bits or erasures, two for each bit sent, the decoder makes bits,
-- as many as were sent, whose codeword is contradicted in no more places than that of any bits.
pub viterbi-nearest :
    (received bits : List ℕ)
    → All IsBit bits
    → length received ≡ 2 * length bits
    → length received < inf_metric
    → All IsBit (viterbi (pairs received))
      × (length (viterbi (pairs received)) ≡ length bits)
      × (mismatches received (rate_half 0 (viterbi (pairs received)))
          ≤ mismatches received (rate_half 0 bits))
viterbi-nearest received bits i l short =
    let wide = length-pairs received (length bits) l in
    let path = viterbi-IsPath (pairs received) bits i (sym wide) (omega arith) in
    let same : length (viterbi (pairs received)) ≡ length bits = path.1 ∙ wide in
    (
      path.0,
      same,
      omega (
        arith,
        path.2,
        distance-eq-mismatches 0 received bits l,
        distance-eq-mismatches 0 received (viterbi (pairs received)) (omega arith),
      ),
    )
