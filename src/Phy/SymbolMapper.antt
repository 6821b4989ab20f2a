-- ===== src/Phy/SymbolMapper.antt =====
-- include/qpsk_b200/symbol_mapper.h and src/symbol_mapper.cpp: Gray-coded QPSK.
pub mod RoundTrip
use qpsk_b.Base.{
  ℕ, zero, suc, ◌+◌, ◌*◌, ◌%◌, ◌&&◌, List, [], ◌∷◌, ◌++◌, ltb, ◌==◌, if◌then◌else◌, length, bit_and,
  bit_or,
}
use qpsk_b.Base.Bits.{shr}
use qpsk_b.Base.Result.{Result, ok, err, ◌>>=◌}
use qpsk_b.Phy.Samples.{Samples}

-- The exception of `dibit_to_symbol`, and a read past the end of an array.
pub data SymbolFault : Type 0 where
  out_of_range past_end : SymbolFault

module _ (c : Samples) where
  open c use {
    Sample, point, real, imag, sqrt1_2, minus_sqrt1_2, is_positive, is_not_negative,
    is_not_positive,
  }

  -- `CONSTELLATION[dibit]`.
  unfoldable pub constellation : ℕ → Result SymbolFault Sample
  constellation zero = ok (point sqrt1_2 sqrt1_2)
  constellation (suc zero) = ok (point minus_sqrt1_2 sqrt1_2)
  constellation (suc (suc zero)) = ok (point sqrt1_2 minus_sqrt1_2)
  constellation (suc (suc (suc zero))) = ok (point minus_sqrt1_2 minus_sqrt1_2)
  constellation (suc (suc (suc (suc dibit)))) = err past_end

  unfoldable pub dibit_to_symbol : ℕ → Result SymbolFault Sample
  dibit_to_symbol dibit = if ltb 3 dibit then err out_of_range else constellation dibit

  unfoldable pub symbol_to_dibit : Sample → ℕ
  symbol_to_dibit sym =
      if is_positive (real sym) && is_not_negative (imag sym)
      then 0
      else (if is_not_positive (real sym) && is_positive (imag sym)
          then 1
          else (if is_not_positive (real sym) && is_not_positive (imag sym) then 3 else 2))

  -- The loop of `map` over the padded bits.
  unfoldable pub map_loop : List ℕ → Result SymbolFault (List Sample)
  map_loop [] = ok []
  map_loop (first ∷ []) = err past_end
  map_loop (first ∷ second ∷ bits) = do
    sym ← constellation (bit_or (first * 2) second % 256)
    symbols ← map_loop bits
    ok (sym ∷ symbols)

  -- The symbols, and the number of padding bits.
  unfoldable pub map : List ℕ → Result SymbolFault (List Sample × ℕ)
  map bits =
      if length bits % 2 == 0
      then (do symbols ← map_loop bits; ok (symbols, 0))
      else (do symbols ← map_loop (bits ++ (0 ∷ [])); ok (symbols, 1))

  unfoldable pub demap : List Sample → List ℕ
  demap [] = []
  demap (sym ∷ symbols) =
      bit_and (shr (symbol_to_dibit sym) 1) 1 ∷ bit_and (symbol_to_dibit sym) 1 ∷ demap symbols
