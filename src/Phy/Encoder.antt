-- ===== src/Phy/Encoder.antt =====
-- src/encoder.cpp: from a payload to samples. `acquisition_symbols` is not negative, which
-- `Config::validate` sees to.
pub mod Layout
use qpsk_b.Base.{
  ℕ, zero, suc, ◌+◌, ◌-◌, ◌*◌, ◌%◌, Bool, List, [], ◌∷◌, ◌++◌, ◌==◌, if◌then◌else◌, length, take,
  drop, replicate,
}
use qpsk_b.Base.Bits.{add64}
use qpsk_b.Base.Result.{Result, ok, err, ◌>>=◌}
use qpsk_b.Phy.Samples.{Samples}
use qpsk_b.Phy.Frame.{FrameBuilder, build_frame, payload_bits}
use qpsk_b.Phy.FecEncoder.{CodeRate, rate_1_2, rate_3_4}
use qpsk_b.Phy.FecEncoder
use qpsk_b.Phy.SymbolMapper
use qpsk_b.Phy.SymbolMapper.{SymbolFault}
use qpsk_b.Phy.FrameSync.{bpsk_map_preamble}
use qpsk_b.Phy.PulseShaper.{PulseShaper, shape, zero_sample}

unfoldable pub make_doubled_preamble : List ℕ → List ℕ
make_doubled_preamble preamble = preamble ++ preamble

-- The number of the enumerator.
unfoldable pub rate_value : CodeRate → ℕ
rate_value rate_1_2 = 0
rate_value rate_3_4 = 1

-- The parts of `Config` that the encoder and the decoder read, beside those of the filter.
pub record Config : Type 0 where
  pub preamble : List ℕ
  pub fec_enabled : Bool
  pub fec_code_rate : CodeRate
  pub acquisition_symbols : ℕ

-- Step 2: the coded payload in place of the payload.
unfoldable pub splice : ℕ → List ℕ → List ℕ → List ℕ
splice preamble_bits_count frame_bits coded_bytes =
    take (preamble_bits_count + 35) frame_bits
    ++ (payload_bits coded_bytes ++ drop (length frame_bits - 32) frame_bits)

-- Steps 1 and 2.
unfoldable pub frame_bits : Config → FrameBuilder → List ℕ → List ℕ × FrameBuilder
frame_bits g builder payload =
    let (bits, builder) =
      build_frame builder payload 0 g.fec_enabled (rate_value g.fec_code_rate) in
    (
      if g.fec_enabled
          then splice (length g.preamble * 2) bits (FecEncoder.encode g.fec_code_rate payload)
          else bits,
      builder,
    )

-- Step 3.
unfoldable pub data_bits : Config → FrameBuilder → List ℕ → List ℕ
data_bits g builder payload = drop (length g.preamble * 2) (frame_bits g builder payload).0

module _ (c : Samples) where
  open c use {Sample, point, sqrt1_2, minus_sqrt1_2}

  unfoldable pub acquisition_pattern : ℕ → Sample
  acquisition_pattern zero = point sqrt1_2 sqrt1_2
  acquisition_pattern (suc zero) = point sqrt1_2 minus_sqrt1_2
  acquisition_pattern (suc (suc zero)) = point minus_sqrt1_2 minus_sqrt1_2
  acquisition_pattern (suc (suc (suc i))) = point minus_sqrt1_2 sqrt1_2

  -- `n` rounds of the loop from `i` on.
  unfoldable pub acquisition_loop : ℕ → ℕ → List Sample
  acquisition_loop zero i = []
  acquisition_loop (suc n) i = acquisition_pattern (i % 4) ∷ acquisition_loop n (i + 1)

  unfoldable pub generate_acquisition_symbols : ℕ → List Sample
  generate_acquisition_symbols count = acquisition_loop count 0

  pub record Encoder : Type 0 where
    pub config : Config
    pub frame_builder : FrameBuilder
    pub shaper : PulseShaper c
    pub frames_transmitted : ℕ
    pub symbols_transmitted : ℕ

  -- The constructor, with the first sequence number of `FrameBuilder`.
  unfoldable pub new_encoder : Config → PulseShaper c → Encoder
  new_encoder g shaper = record {
    config = g;
    frame_builder = record { preamble = make_doubled_preamble g.preamble; seq_num = 0 };
    shaper = shaper;
    frames_transmitted = 0;
    symbols_transmitted = 0;
  }

  -- Steps 3 to 8: what goes into the filter.
  unfoldable pub all_symbols : Config → FrameBuilder → List ℕ → Result SymbolFault (List Sample)
  all_symbols g builder payload = do
    let bits = (frame_bits g builder payload).0
    (data_symbols, padding) ← SymbolMapper.map c (data_bits g builder payload)
    ok (
        generate_acquisition_symbols g.acquisition_symbols
        ++ (bpsk_map_preamble c (take (length g.preamble * 2) bits)
            ++ (data_symbols ++ replicate 6 (zero_sample c))))

  unfoldable pub encode : Encoder → List ℕ → Result SymbolFault (List Sample × Encoder)
  encode e payload = do
    symbols ← all_symbols e.config e.frame_builder payload
    ok (
      shape c e.shaper symbols,
      record e {
        frame_builder = (frame_bits e.config e.frame_builder payload).1;
        frames_transmitted = add64 e.frames_transmitted 1;
        symbols_transmitted = add64 e.symbols_transmitted (length symbols);
      },
    )
