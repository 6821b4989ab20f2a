-- ===== src/Phy/Decoder/Chain/Decimation.antt =====
-- The loop that takes every sps-th of the filtered samples.
use native.Mathlib.Nat.{mul-le-mul_left, mul-le-mul_right}
use qpsk_b.Base.{
  ℕ, zero, suc, ◌+◌, ◌-◌, ◌*◌, ◌≤◌, ◌<◌, ◌≡◌, refl, ap, ◌∙◌, sym, none, Option-cases, inl, inr,
  List, [], ◌∷◌, length, get_elem?, arith,
}
use qpsk_b.Phy.Samples.{Samples}
use qpsk_b.Phy.Decoder.Chain.{Recovery, Decoder, decimate_loop, decimate}

get_elem?-end : {A : Type 0} (xs : List A) (i : ℕ) → length xs ≤ i → get_elem? xs i ≡ none
get_elem?-end [] i h = refl
get_elem?-end (x ∷ xs) zero h = absurd (omega arith)
get_elem?-end (x ∷ xs) (suc i) h = get_elem?-end xs i (omega arith)

none-end : {A : Type 0} (xs : List A) (i : ℕ) → get_elem? xs i ≡ none → length xs ≤ i
none-end [] i h = omega arith
none-end (x ∷ xs) zero h = absurd (ground (arith, h))
none-end (x ∷ xs) (suc i) h = omega (arith, none-end xs i h)

ended :
    {A : Type 0} (delay sps k i : ℕ) (filtered : List A)
    → get_elem? filtered (delay + k * sps) ≡ none
    → get_elem? filtered (delay + (k + i) * sps) ≡ none
ended delay sps k i filtered e =
    let past : (k + 0) * sps ≤ (k + i) * sps = mul-le-mul_right sps (omega arith) in
    let same : k * sps ≡ (k + 0) * sps = ap (λ n. n * sps) (omega arith) in
    get_elem?-end filtered (delay + (k + i) * sps)
      (omega (arith, none-end filtered (delay + k * sps) e, past, same))

module _ (c : Samples) (recovery : Recovery c) where
  open c use {Sample}

  get_elem?-decimate_loop :
      (fuel delay sps k i : ℕ) (filtered : List Sample)
      → length filtered ≤ delay + (k + fuel) * sps
      → get_elem? (decimate_loop c recovery fuel delay sps filtered k) i
        ≡ get_elem? filtered (delay + (k + i) * sps)
  unfolding decimate_loop
  get_elem?-decimate_loop zero delay sps k i filtered h =
      let past : (k + 0) * sps ≤ (k + i) * sps = mul-le-mul_right sps (omega arith) in
      sym (get_elem?-end filtered (delay + (k + i) * sps) (omega arith))
  get_elem?-decimate_loop (suc fuel) delay sps k zero filtered h =
      elim (Option-cases (get_elem? filtered (delay + k * sps))) [
        | inl e ↦ rw (decimate_loop, e) (sym (ended delay sps k 0 filtered e))
        | inr (s, e) ↦
            rw (decimate_loop, e)
              (sym e ∙ ap (λ n. get_elem? filtered (delay + n * sps)) (omega arith))
      ]
  get_elem?-decimate_loop (suc fuel) delay sps k (suc i) filtered h =
      let shift : k + suc fuel ≡ k + 1 + fuel = omega arith in
      let shifted : (k + suc fuel) * sps ≡ (k + 1 + fuel) * sps = ap (λ n. n * sps) shift in
      let rest =
        get_elem?-decimate_loop fuel delay sps (k + 1) i filtered (omega (arith, h, shifted)) in
      elim (Option-cases (get_elem? filtered (delay + k * sps))) [
        | inl e ↦ rw (decimate_loop, e) (sym (ended delay sps k (suc i) filtered e))
        | inr (s, e) ↦
            rw (decimate_loop, e)
              (rest ∙ ap (λ n. get_elem? filtered (delay + n * sps)) (omega arith))
      ]

  -- The stream has the filtered samples at the delay of both filters and at every samples_per_symbol
  -- from there on, to the end of them, if samples_per_symbol is positive.
  pub get_elem?-decimate :
      (d : Decoder c recovery) (filtered : List Sample) (k : ℕ)
      → 0 < d.samples_per_symbol
      → get_elem? (decimate c recovery d filtered) k
        ≡ get_elem? filtered (d.rrc_span_symbols * d.samples_per_symbol + k * d.samples_per_symbol)
  unfolding decimate
  get_elem?-decimate d filtered k positive =
      let sps = d.samples_per_symbol in
      let fuel = length filtered in
      let enough : fuel * 1 ≤ fuel * sps = mul-le-mul_left fuel positive in
      let zeroth : (0 + fuel) * sps ≡ fuel * sps = ap (λ n. n * sps) (omega arith) in
      get_elem?-decimate_loop fuel (d.rrc_span_symbols * sps + 1 - 1) sps 0 k filtered
        (omega (arith, enough, zeroth))
      ∙ ap (get_elem? filtered) (omega arith)
