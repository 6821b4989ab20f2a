-- ===== src/Phy/PulseShaper.antt =====
-- src/pulse_shaper.cpp: the two filters, with the taps given. The constructor, which computes the taps
-- of the root-raised-cosine filter by sines and cosines, is not modelled; it refuses fewer than one
-- tap and fewer than one sample for a symbol.
use qpsk_b.Base.{
  ℕ, zero, suc, ◌+◌, ◌-◌, ◌*◌, ◌≤◌, ◌≡◌, refl, ap, ◌∙◌, List, [], ◌∷◌, ◌++◌, leb, ltb, ◌&&◌,
  if◌then◌else◌, get_or, length, length-append, length-replicate, replicate, arith,
}
use qpsk_b.Phy.Samples.{Samples}

module _ (c : Samples) where
  open c use {Real, Sample, zero_real, point, add, scale}

  pub record PulseShaper : Type 0 where
    pub sps : ℕ
    pub rrc_taps : List Real

  abbrev pub zero_sample : Sample
  zero_sample = point zero_real zero_real

  -- The symbols with `sps - 1` zeros after each.
  unfoldable pub upsample : ℕ → List Sample → List Sample
  upsample sps [] = []
  upsample sps (s ∷ symbols) = s ∷ replicate (sps - 1) zero_sample ++ upsample sps symbols

  -- The loop over `k`, from `k` on with the taps from there on.
  unfoldable pub tap_loop : List Sample → ℕ → ℕ → List Real → Sample → Sample
  tap_loop signal n k [] sum = sum
  tap_loop signal n k (tap ∷ taps) sum = tap_loop signal n (k + 1) taps (
      if leb k n && ltb (n - k) (length signal)
      then add sum (scale (get_or signal (n - k) zero_sample) tap)
      else sum)

  -- `rounds` rounds of the loop over `n`.
  unfoldable pub convolve_loop : List Sample → List Real → ℕ → ℕ → List Sample
  convolve_loop signal taps zero n = []
  convolve_loop signal taps (suc rounds) n =
      tap_loop signal n 0 taps zero_sample ∷ convolve_loop signal taps rounds (n + 1)

  unfoldable pub shape : PulseShaper → List Sample → List Sample
  shape p [] = []
  shape p (s ∷ symbols) =
      let upsampled = upsample p.sps (s ∷ symbols) in
      convolve_loop upsampled p.rrc_taps (length upsampled + length p.rrc_taps - 1) 0

  unfoldable pub matched_filter : PulseShaper → List Sample → List Sample
  matched_filter p [] = []
  matched_filter p (s ∷ samples) =
      convolve_loop (s ∷ samples) p.rrc_taps (length (s ∷ samples) + length p.rrc_taps - 1) 0

  length-convolve_loop :
      (signal : List Sample) (taps : List Real) (rounds n : ℕ)
      → length (convolve_loop signal taps rounds n) ≡ rounds
  unfolding convolve_loop
  length-convolve_loop signal taps zero n = refl
  length-convolve_loop signal taps (suc rounds) n =
      ap suc (length-convolve_loop signal taps rounds (n + 1))

  length-upsample :
      (sps : ℕ) (symbols : List Sample)
      → 1 ≤ sps
      → length (upsample sps symbols) ≡ length symbols * sps
  unfolding upsample
  length-upsample sps [] h = omega arith
  length-upsample sps (s ∷ symbols) h = omega (
    arith,
    length-append {0} (replicate (sps - 1) zero_sample) (upsample sps symbols),
    length-replicate {0} (sps - 1) zero_sample,
    length-upsample sps symbols h,
  )

  -- How many samples the symbols make.
  pub length-shape :
      (p : PulseShaper) (symbols : List Sample)
      → 1 ≤ p.sps
      → 1 ≤ length symbols
      → length (shape p symbols) ≡ length symbols * p.sps + length p.rrc_taps - 1
  unfolding shape
  length-shape p [] h k = absurd (omega arith)
  length-shape p (s ∷ symbols) h k =
      let up = upsample p.sps (s ∷ symbols) in
      length-convolve_loop up p.rrc_taps (length up + length p.rrc_taps - 1) 0
      ∙ ap (λ (n : ℕ). n + length p.rrc_taps - 1) (length-upsample p.sps (s ∷ symbols) h)
