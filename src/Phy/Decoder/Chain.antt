-- ===== src/Phy/Decoder/Chain.antt =====
-- src/decoder.cpp: the class `Decoder`. `decode` makes three streams of symbols of the filtered samples,
-- one after another, and takes the first that `try_decode_frame` finds a payload in. The loops that
-- recover carrier and timing are a parameter: their states, and what they make of samples.
pub mod Counts
pub mod Decimation
use qpsk_b.Base.{
  ℕ, zero, suc, ◌+◌, ◌-◌, ◌*◌, Bool, true, false, Option, none, some, List, [], ◌∷◌, length,
  get_elem?,
}
use qpsk_b.Base.Bits.{add64}
use qpsk_b.Base.Result.{Result, ok, err, ◌>>=◌}
use qpsk_b.Phy.Samples.{Samples}
use qpsk_b.Phy.Frame.{ReadFault}
use qpsk_b.Phy.FrameSync.{FrameSynchronizer}
use qpsk_b.Phy.PulseShaper.{PulseShaper, matched_filter}
use qpsk_b.Phy.Encoder.{make_doubled_preamble}
use qpsk_b.Phy.Decoder.{RxState, RxDiagnostics, try_decode_frame}

-- `CarrierSynchronizer` and `TimingRecovery`.
pub record Recovery (c : Samples) : Type 1 where
  pub Carrier : Type 0
  pub Timing : Type 0
  pub Offset : Type 0
  pub zero_offset : Offset
  pub synchronize : Carrier → List c.Sample → List c.Sample × Carrier
  pub get_freq_offset : Carrier → Offset
  pub get_phase_offset : Carrier → Offset
  pub reset_carrier : Carrier → Carrier
  pub recover : Timing → List c.Sample → List c.Sample × Timing
  pub get_timing_offset : Timing → Offset
  pub reset_timing : Timing → Timing

unfoldable pub no_diagnostics : RxDiagnostics
no_diagnostics = record { frames_received = 0; crc_errors = 0; fec_errors_corrected = 0 }

module _ (c : Samples) (recovery : Recovery c) where
  open c use {Sample}
  open recovery use {
    Carrier, Timing, Offset, zero_offset, synchronize, get_freq_offset, get_phase_offset,
    reset_carrier, recover, get_timing_offset, reset_timing,
  }

  -- The object; the offsets of its diagnostics stand beside the counters.
  pub record Decoder : Type 0 where
    pub preamble : List ℕ
    pub samples_per_symbol : ℕ
    pub rrc_span_symbols : ℕ
    pub shaper : PulseShaper c
    pub carrier_sync : Carrier
    pub timing_recovery : Timing
    pub frame_sync : FrameSynchronizer c
    pub rx : RxState
    pub last_freq_offset : Offset
    pub last_phase_offset : Offset
    pub last_timing_offset : Offset

  -- The loop over k, from some k on; the fuel bounds the number of symbols.
  unfoldable pub decimate_loop : ℕ → ℕ → ℕ → List Sample → ℕ → List Sample
  decimate_loop zero combined_delay sps filtered k = []
  decimate_loop (suc fuel) combined_delay sps filtered k =
      let rest = decimate_loop fuel combined_delay sps filtered (k + 1) in
      elim (get_elem? filtered (combined_delay + k * sps)) [ none ↦ [] | some s ↦ s ∷ rest ]

  unfoldable pub decimate : Decoder → List Sample → List Sample
  decimate d filtered =
      let num_taps = d.rrc_span_symbols * d.samples_per_symbol + 1 in
      decimate_loop (length filtered) (num_taps - 1) d.samples_per_symbol filtered 0

  unfoldable pub synchronized : Decoder → List Sample → List Sample × Decoder
  synchronized d filtered =
      let (synced, carrier_sync) = synchronize d.carrier_sync filtered in
      (
        synced,
        record d {
          carrier_sync = carrier_sync;
          last_freq_offset = get_freq_offset carrier_sync;
          last_phase_offset = get_phase_offset carrier_sync;
        },
      )

  unfoldable pub retimed : Decoder → List Sample → List Sample × Decoder
  retimed d synced =
      let (recovered, timing_recovery) = recover d.timing_recovery synced in
      (
        recovered,
        record d {
          timing_recovery = timing_recovery;
          last_timing_offset = get_timing_offset timing_recovery;
        },
      )

  unfoldable pub try_stream : List Sample → Decoder → Result ReadFault (Option (List ℕ) × Decoder)
  try_stream recovered d = do
    (payload, rx) ←
        try_decode_frame c recovered (make_doubled_preamble d.preamble) d.frame_sync d.rx
    ok (payload, record d { rx = rx })

  -- `if (result) return result`, and else what follows.
  unfoldable pub or_next :
      Option (List ℕ) × Decoder
      → (Decoder → Result ReadFault (Option (List ℕ) × Decoder))
      → Result ReadFault (Option (List ℕ) × Decoder)
  or_next (some payload, d) next = ok (some payload, d)
  or_next (none, d) next = next d

  unfoldable pub full_chain : List Sample → Decoder → Result ReadFault (Option (List ℕ) × Decoder)
  full_chain filtered d =
      let (synced, d) = synchronized d filtered in
      let (recovered, d) = retimed d synced in try_stream recovered d

  unfoldable pub without_timing :
      List Sample → Decoder → Result ReadFault (Option (List ℕ) × Decoder)
  without_timing filtered d =
      let (synced, d) =
        synchronized (record d { carrier_sync = reset_carrier d.carrier_sync }) filtered in
      try_stream (decimate d synced) d

  unfoldable pub count_failure : Decoder → Decoder
  count_failure d = record d {
    rx = record d.rx { diag = record d.rx.diag { crc_errors = add64 d.rx.diag.crc_errors 1 } };
  }

  unfoldable pub decode : Decoder → List Sample → Result ReadFault (Option (List ℕ) × Decoder)
  decode d [] = ok (none, d)
  decode d (s ∷ samples) =
      let filtered = matched_filter c d.shaper (s ∷ samples) in
      (do
        first ← full_chain filtered d
        or_next first (λ d. do
          second ← try_stream (decimate d filtered) d
          or_next second (λ d. do
            third ← without_timing filtered d
            or_next third (λ d. ok (none, count_failure d)))))

  unfoldable pub reset : Decoder → Decoder
  reset d = record d {
    carrier_sync = reset_carrier d.carrier_sync;
    timing_recovery = reset_timing d.timing_recovery;
    rx = record d.rx { diag = no_diagnostics };
    last_freq_offset = zero_offset;
    last_phase_offset = zero_offset;
    last_timing_offset = zero_offset;
  }
