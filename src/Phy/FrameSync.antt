-- ===== src/Phy/FrameSync.antt =====
-- include/qpsk_b200/frame_sync.h and src/frame_sync.cpp: the search for the preamble.
pub mod Bounds
use qpsk_b.Base.{
  ℕ, zero, suc, ◌+◌, ◌-◌, ◌||◌, Bool, true, false, Option, none, some, List, [], ◌∷◌, ltb, ◌==◌,
  if◌then◌else◌, length, drop,
}
use qpsk_b.Phy.Samples.{Samples}

module _ (c : Samples) where
  open c use {
    Real, Sample, zero_real, one, minus_one, sync_floor, point, is_less, is_at_least, add_real,
    times_real, divide_real, sqrt, add, times, conj, norm, abs,
  }

  -- Preamble bits to symbols, also in `encoder.cpp` and `decoder.cpp`.
  unfoldable pub bpsk_map_preamble : List ℕ → List Sample
  bpsk_map_preamble [] = []
  bpsk_map_preamble (bit ∷ bits) =
      point (if bit == 0 then one else minus_one) zero_real ∷ bpsk_map_preamble bits

  pub record FrameSynchronizer : Type 0 where
    pub preamble_symbols : List Sample
    pub threshold : Real

  unfoldable pub new_synchronizer : List ℕ → Real → FrameSynchronizer
  new_synchronizer preamble threshold = record {
    preamble_symbols = bpsk_map_preamble preamble;
    threshold = threshold;
  }

  unfoldable pub energy : Real → List Sample → Real
  energy total [] = total
  energy total (s ∷ symbols) = energy (add_real total (norm s)) symbols

  -- The loop over `j`: `corr` and `signal_energy`, on the symbols from position `i` on.
  unfoldable pub correlate : Sample → Real → List Sample → List Sample → Sample × Real
  correlate corr signal_energy symbols [] = (corr, signal_energy)
  correlate corr signal_energy [] (p ∷ preamble) = (corr, signal_energy)
  correlate corr signal_energy (s ∷ symbols) (p ∷ preamble) =
      correlate (add corr (times s (conj p))) (add_real signal_energy (norm s)) symbols preamble

  -- The body of the loop over `i`: whether the preamble is found at the front.
  unfoldable pub is_found : FrameSynchronizer → List Sample → Bool
  is_found f symbols =
      let (corr, signal_energy) =
        correlate (point zero_real zero_real) zero_real symbols f.preamble_symbols in
      let denom = sqrt (times_real (energy zero_real f.preamble_symbols) signal_energy) in
      if is_less denom sync_floor
      then false
      else is_at_least (divide_real (abs corr) denom) f.threshold

  -- `n` positions from `i` on, with the symbols from there on.
  unfoldable pub search_loop : FrameSynchronizer → ℕ → ℕ → List Sample → Option ℕ
  search_loop f zero i symbols = none
  search_loop f (suc n) i symbols =
      let rest = search_loop f n (i + 1) (drop 1 symbols) in
      if is_found f symbols then some (i + length f.preamble_symbols) else rest

  unfoldable pub detect : FrameSynchronizer → List Sample → Option ℕ
  detect f symbols =
      let plen = length f.preamble_symbols in
      if ltb (length symbols) plen || plen == 0
      then none
      else search_loop f (length symbols - plen + 1) 0 symbols
