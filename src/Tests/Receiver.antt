-- ===== src/Tests/Receiver.antt =====
-- The receiver on samples with nothing in them, and the parsers on few bits.
use qpsk_b.Base.{[], ◌∷◌}
use qpsk_b.Base.Result.{Returns}
use qpsk_b.Phy.Frame.{parse, parse_unchecked}
use qpsk_b.Phy.Frame.Total.{parse-Returns}
use qpsk_b.Phy.Decoder.Chain.{Recovery, Decoder, decode}
use qpsk_b.Phy.Decoder.Chain.Counts.{IsCounted, decode-IsCounted}
use qpsk_b.Tests.Link.{low, nought, high, ideal, sync, state}

parse-Returns_example :
    Returns (λ o. Unit) (parse (1 ∷ 0 ∷ 1 ∷ []))
    × Returns (λ o. Unit) (parse_unchecked (1 ∷ 0 ∷ 1 ∷ []))
parse-Returns_example = parse-Returns (1 ∷ 0 ∷ 1 ∷ [])

-- Loops that change nothing.
abbrev pub still : Recovery ideal
still = record {
  Carrier = Unit;
  Timing = Unit;
  Offset = Unit;
  zero_offset = tt;
  synchronize = λ state samples. (samples, state);
  get_freq_offset = λ state. tt;
  get_phase_offset = λ state. tt;
  reset_carrier = λ state. state;
  recover = λ state samples. (samples, state);
  get_timing_offset = λ state. tt;
  reset_timing = λ state. state;
}

abbrev pub radio : Decoder ideal still
radio = record {
  preamble = 1 ∷ 0 ∷ [];
  samples_per_symbol = 2;
  rrc_span_symbols = 1;
  shaper = record { sps = 2; rrc_taps = high ∷ [] };
  carrier_sync = tt;
  timing_recovery = tt;
  frame_sync = sync;
  rx = state;
  last_freq_offset = tt;
  last_phase_offset = tt;
  last_timing_offset = tt;
}

decode-IsCounted_example :
    Returns
      (IsCounted ideal still radio.rx.diag)
      (decode ideal still radio ((low, nought) ∷ (high, nought) ∷ []))
decode-IsCounted_example = decode-IsCounted ideal still radio (low, nought) ((high, nought) ∷ [])
