-- ===== src/Phy/FrameSync/Bounds.antt =====
-- Where a preamble that the synchronizer tells of stands.
use qpsk_b.Base.{
  ℕ, zero, suc, ◌+◌, ◌-◌, ◌≤◌, ◌<◌, ◌≡◌, ap, ◌∙◌, sym, inl, inr, true, false, some, List, ltb, ◌==◌,
  Bool-cases, length, drop, arith,
}
use qpsk_b.Base.Elements.{drop-drop}
use qpsk_b.Phy.Samples.{Samples}
use qpsk_b.Phy.FrameSync.{FrameSynchronizer, is_found, search_loop, detect}

module _ (c : Samples) where
  open c use {Sample}

  -- The first position at which the preamble is found is `start - length`.
  pub record IsFirst (f : FrameSynchronizer c) (symbols : List Sample) (start : ℕ) : Type 0 where
    pub after_preamble : length f.preamble_symbols ≤ start
    pub inside : start ≤ length symbols
    pub found : is_found c f (drop (start - length f.preamble_symbols) symbols) ≡ true
    pub earlier :
        (i : ℕ) → i + length f.preamble_symbols < start → is_found c f (drop i symbols) ≡ false

  search_loop-IsFirst :
      (f : FrameSynchronizer c) (n i start : ℕ) (symbols : List Sample)
      → ((j : ℕ) → j < i → is_found c f (drop j symbols) ≡ false)
      → i + n + length f.preamble_symbols ≡ length symbols + 1
      → search_loop c f n i (drop i symbols) ≡ some start
      → IsFirst f symbols start
  unfolding search_loop
  search_loop-IsFirst f zero i start symbols before size h = absurd (ground arith)
  search_loop-IsFirst f (suc n) i start symbols before size h =
      elim (Bool-cases (is_found c f (drop i symbols))) [
        | inl t ↦
            let here : i + length f.preamble_symbols ≡ start = ground arith in
            let back : start - length f.preamble_symbols ≡ i = omega arith in
            record {
              after_preamble = omega arith;
              inside = omega arith;
              found = ap (λ i. is_found c f (drop i symbols)) back ∙ t;
              earlier = λ j lt. before j (omega arith);
            }
        | inr t ↦
            search_loop-IsFirst f n (i + 1) start symbols
              (λ j lt. elim (Bool-cases (j == i)) [
                | inl q ↦
                    let e : j ≡ i = ground arith in ap (λ j. is_found c f (drop j symbols)) e ∙ t
                | inr q ↦ before j (ground arith)
              ])
              (omega arith)
              (ap (λ s. search_loop c f n (i + 1) s) (sym (drop-drop i 1 symbols))
                ∙ let rest : search_loop c f n (i + 1) (drop 1 (drop i symbols)) ≡ some start =
                    ground arith in
                  rest)
      ]

  -- A start that `detect` gives is the end of the first place at which the preamble is found, and lies
  -- inside the symbols.
  pub detect-IsFirst :
      (f : FrameSynchronizer c) (symbols : List Sample) (start : ℕ)
      → detect c f symbols ≡ some start
      → IsFirst f symbols start
  unfolding detect
  detect-IsFirst f symbols start h =
      elim (Bool-cases (ltb (length symbols) (length f.preamble_symbols))) [
        | inl t ↦ absurd (ground arith)
        | inr t ↦
            search_loop-IsFirst f (length symbols - length f.preamble_symbols + 1) 0 start symbols
              (λ j lt. absurd (omega arith)) (ground arith) (ground arith)
      ]
