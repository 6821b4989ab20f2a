-- ===== src/Phy/SymbolMapper/RoundTrip.antt =====
-- Bits mapped to symbols and read again by quadrant.
use qpsk_b.Base.{
  ℕ, zero, suc, ◌+◌, ◌*◌, ◌/◌, ◌%◌, ◌<◌, ◌≡◌, refl, ap, ◌∙◌, sym, inl, inr, List, [], ◌∷◌, ◌++◌,
  ◌==◌, ==_iff, Bool-cases, length, length-append, replicate, take, All, All-append, append-nil,
  bit_and, bit_or, arith,
}
use qpsk_b.Base.Bits.{shr}
use qpsk_b.Phy.Frame.Bits.{bit_and-one}
use qpsk_b.Base.Result.{ok}
use qpsk_b.Phy.Samples.{Samples}
use qpsk_b.Phy.SymbolMapper.{constellation, symbol_to_dibit, map_loop, map, demap}

module _ (c : Samples) where
  open c use {
    Sample, point, real, imag, real-point, imag-point, is_positive-sqrt1_2, is_not_negative-sqrt1_2,
    is_not_positive-sqrt1_2, is_positive-minus, is_not_negative-minus, is_not_positive-minus,
  }

  -- What `map` makes of two bits, and what `demap` makes of that.
  record IsMapped (first second : ℕ) : Type 0 where
    symbol : Sample
    mapped : constellation c (bit_or (first * 2) second % 256) ≡ ok symbol
    demapped : symbol_to_dibit c symbol ≡ first * 2 + second

  two_bits : (first second : ℕ) → first < 2 → second < 2 → IsMapped first second
  unfolding constellation symbol_to_dibit
  two_bits zero zero h k = record {
    symbol = _;
    mapped = refl;
    demapped =
        rw (real-point _ _, imag-point _ _, is_positive-sqrt1_2, is_not_negative-sqrt1_2) refl;
  }
  two_bits zero (suc zero) h k = record {
    symbol = _;
    mapped = refl;
    demapped =
        rw
          (
            real-point _ _,
            imag-point _ _,
            is_positive-minus,
            is_not_positive-minus,
            is_positive-sqrt1_2,
          )
          refl;
  }
  two_bits (suc zero) zero h k = record {
    symbol = _;
    mapped = refl;
    demapped =
        rw
          (
            real-point _ _,
            imag-point _ _,
            is_positive-sqrt1_2,
            is_not_negative-minus,
            is_not_positive-sqrt1_2,
          )
          refl;
  }
  two_bits (suc zero) (suc zero) h k = record {
    symbol = _;
    mapped = refl;
    demapped = rw (real-point _ _, imag-point _ _, is_positive-minus, is_not_positive-minus) refl;
  }
  two_bits (suc (suc first)) second h k = absurd (omega arith)
  two_bits zero (suc (suc second)) h k = absurd (omega arith)
  two_bits (suc zero) (suc (suc second)) h k = absurd (omega arith)

  high_bit :
      (first second : ℕ) → first < 2 → second < 2 → bit_and (shr (first * 2 + second) 1) 1 ≡ first
  high_bit first second h k = bit_and-one ((first * 2 + second) / 2) ∙ omega arith

  low_bit : (first second : ℕ) → second < 2 → bit_and (first * 2 + second) 1 ≡ second
  low_bit first second k = bit_and-one (first * 2 + second) ∙ omega arith

  -- Whole pairs of bits.
  record IsSent (bits : List ℕ) (n : ℕ) : Type 0 where
    symbols : List Sample
    mapped : map_loop c bits ≡ ok symbols
    demapped : demap c symbols ≡ bits
    count : length symbols ≡ n

  map_loop_lem :
      (n : ℕ) (bits : List ℕ) → All (λ b. b < 2) bits → length bits ≡ 2 * n → IsSent bits n
  unfolding map_loop demap
  map_loop_lem zero [] i h = record { symbols = []; mapped = refl; demapped = refl; count = refl }
  map_loop_lem (suc n) [] i h = absurd (omega arith)
  map_loop_lem n (first ∷ []) i h = absurd (omega arith)
  map_loop_lem zero (first ∷ second ∷ bits) i h = absurd (omega arith)
  map_loop_lem (suc n) (first ∷ second ∷ bits) i h =
      let pair = two_bits first second i.0 i.1.0 in
      let rest = map_loop_lem n bits i.1.1 (omega arith) in
      record {
        symbols = pair.symbol ∷ rest.symbols;
        mapped = rw (pair.mapped, rest.mapped) refl;
        demapped =
            let high = high_bit first second i.0 i.1.0 in
            let low = low_bit first second i.1.0 in
            rw (pair.demapped, high, low, rest.demapped) refl;
        count = ap suc rest.count;
      }

  pub length-demap : (symbols : List Sample) → length (demap c symbols) ≡ 2 * length symbols
  unfolding demap
  length-demap [] = refl
  length-demap (s ∷ symbols) = omega (arith, length-demap symbols)

  pub demap-take :
      (n : ℕ) (symbols : List Sample) → demap c (take n symbols) ≡ take (2 * n) (demap c symbols)
  unfolding demap
  demap-take zero symbols = refl
  demap-take (suc n) [] = let q : 2 * suc n ≡ suc (suc (2 * n)) = omega arith in rw q refl
  demap-take (suc n) (s ∷ symbols) =
      let q : 2 * suc n ≡ suc (suc (2 * n)) = omega arith in rw (q, demap-take n symbols) refl

  map_even :
      (bits : List ℕ) (symbols : List Sample)
      → length bits % 2 ≡ 0
      → map_loop c bits ≡ ok symbols
      → map c bits ≡ ok (symbols, length bits % 2)
  unfolding map
  map_even bits symbols even e = rw (even, e) refl

  map_odd :
      (bits : List ℕ) (symbols : List Sample)
      → length bits % 2 ≡ 1
      → map_loop c (bits ++ (0 ∷ [])) ≡ ok symbols
      → map c bits ≡ ok (symbols, length bits % 2)
  unfolding map
  map_odd bits symbols odd e = rw (odd, e) refl

  -- Bits are mapped without a fault, to half as many symbols, with one padding bit where their number
  -- is odd; and the symbols are demapped to the bits and the padding.
  pub demap-map :
      (bits : List ℕ)
      → All (λ b. b < 2) bits
      → (symbols : List Sample) × (map c bits ≡ ok (symbols, length bits % 2))
        × (demap c symbols ≡ bits ++ replicate (length bits % 2) 0)
  demap-map bits i = elim (Bool-cases (length bits % 2 == 0)) [
    | inl even ↦
        let none : length bits % 2 ≡ 0 = (==_iff _ 0).0 even in
        let sent = map_loop_lem (length bits / 2) bits i (omega arith) in
        (
          sent.symbols,
          map_even bits sent.symbols none sent.mapped,
          sent.demapped ∙ sym (ap (λ n. bits ++ replicate n 0) none ∙ append-nil bits),
        )
    | inr odd ↦
        let one_left : length bits % 2 ≡ 1 = ground arith in
        let padded = All-append (λ b. b < 2) bits (0 ∷ []) i (omega arith, tt) in
        let sent =
          map_loop_lem (length bits / 2 + 1) (bits ++ (0 ∷ [])) padded
            (omega (arith, length-append {0} bits (0 ∷ []))) in
        (
          sent.symbols,
          map_odd bits sent.symbols one_left sent.mapped,
          sent.demapped ∙ sym (ap (λ n. bits ++ replicate n 0) one_left),
        )
  ]
