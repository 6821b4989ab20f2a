-- ===== src/Phy/Decoder.antt =====
-- src/decoder.cpp: from recovered symbols to a payload, `try_decode_frame` and what it calls. The class
-- `Decoder`, which makes the streams of symbols, is in Chain.
pub mod Header
pub mod Chain
use qpsk_b.Base.{
  ℕ, zero, suc, ◌+◌, ◌-◌, ◌*◌, ◌/◌, ◌%◌, ◌^◌, Bool, true, false, Option, none, some, List, [], ◌∷◌,
  map, ltb, ◌==◌, if◌then◌else◌, length, take, drop, bit_and, bit_or,
}
use qpsk_b.Base.Bits.{add64}
use qpsk_b.Base.Result.{Result, ok, err, ◌>>=◌}
use qpsk_b.Phy.Samples.{Samples}
use qpsk_b.Phy.Frame.{Frame, ReadFault, parse, parse_unchecked, verify_crc}
use qpsk_b.Phy.FecEncoder.{CodeRate, rate_1_2, rate_3_4, coded_length}
use qpsk_b.Phy.FecDecoder.{FecDecoder}
use qpsk_b.Phy.FecDecoder
use qpsk_b.Phy.SymbolMapper.{demap}
use qpsk_b.Phy.FrameSync.{FrameSynchronizer, bpsk_map_preamble, detect}

-- The loop of `extract_bits_from_vec` on the bits from its position on; there is no bit past the end.
unfoldable pub extract_vec_loop : ℕ → ℕ → List ℕ → ℕ
extract_vec_loop zero value bits = value
extract_vec_loop (suc count) value [] = extract_vec_loop count value []
extract_vec_loop (suc count) value (bit ∷ bits) =
    extract_vec_loop count (bit_or (value * 2 % 2 ^ 32) (bit_and bit 1)) bits

unfoldable pub extract_bits_from_vec : List ℕ → ℕ → ℕ → ℕ
extract_bits_from_vec bits offset count = extract_vec_loop count 0 (drop offset bits)

-- `static_cast<CodeRate>`, where the value is one of the two.
unfoldable pub rate_of : ℕ → Option CodeRate
rate_of zero = some rate_1_2
rate_of (suc zero) = some rate_3_4
rate_of (suc (suc value)) = none

unfoldable pub payload_bit_count : ℕ → Bool → ℕ → Option ℕ
payload_bit_count frame_length false fec_rate_val = some (frame_length * 8)
payload_bit_count frame_length true fec_rate_val = elim (rate_of fec_rate_val) [
  | none ↦ none
  | some rate ↦ some (coded_length rate frame_length * 8)
]

pub record RxDiagnostics : Type 0 where
  pub frames_received : ℕ
  pub crc_errors : ℕ
  pub fec_errors_corrected : ℕ

-- What a decoded frame is read with, and what it changes.
pub record RxState : Type 0 where
  pub fec_decoder : FecDecoder
  pub diag : RxDiagnostics

unfoldable pub count_frame : RxState → RxState
count_frame r = record r {
  diag = record r.diag { frames_received = add64 r.diag.frames_received 1 };
}

-- The payload of a parsed frame.
unfoldable pub take_coded : RxState → Frame → Option (List ℕ) × RxState
take_coded r frame =
    let (decoded_payload, fec_decoder) =
      FecDecoder.decode r.fec_decoder frame.payload frame.header.payload_length in
    let corrected : RxState = record {
      fec_decoder = fec_decoder;
      diag = record r.diag { fec_errors_corrected = fec_decoder.corrected_errors };
    } in
    if verify_crc (record frame { payload = decoded_payload })
    then (some decoded_payload, count_frame corrected)
    else (none, corrected)

unfoldable pub take_plain : RxState → Frame → Option (List ℕ) × RxState
take_plain r frame =
    if frame.crc_valid
    then (some (take frame.header.payload_length frame.payload), count_frame r)
    else (none, r)

unfoldable pub take_payload : RxState → Option Frame → Option (List ℕ) × RxState
take_payload r none = (none, r)
take_payload r (some frame) =
    if frame.header.fec_enabled then take_coded r frame else take_plain r frame

module _ (c : Samples) where
  open c use {Sample, zero_real, one, point, is_less, phase_floor, add, times, conj, abs, divide}

  unfoldable pub correlation : Sample → List Sample → List Sample → Sample
  correlation corr [] reference = corr
  correlation corr (s ∷ received) [] = corr
  correlation corr (s ∷ received) (p ∷ reference) =
      correlation (add corr (times s (conj p))) received reference

  unfoldable pub estimate_phase_correction : List Sample → List Sample → Sample
  estimate_phase_correction received_preamble reference_preamble =
      let corr = correlation (point zero_real zero_real) received_preamble reference_preamble in
      if is_less (abs corr) phase_floor then point one zero_real else divide (conj corr) (abs corr)

  -- The phase correction for a frame that starts at `frame_start`.
  unfoldable pub phase_correction : List ℕ → List Sample → ℕ → Sample
  phase_correction doubled_preamble recovered frame_start =
      let preamble_len = length doubled_preamble in
      if ltb frame_start preamble_len
      then point one zero_real
      else estimate_phase_correction
          (take preamble_len (drop (frame_start - preamble_len) recovered))
          (bpsk_map_preamble c doubled_preamble)

  unfoldable pub corrected_symbols : List ℕ → List Sample → ℕ → List Sample
  corrected_symbols doubled_preamble recovered frame_start =
      map (λ sym. times sym (phase_correction doubled_preamble recovered frame_start))
        (drop frame_start recovered)

  -- From the length of the payload on.
  unfoldable pub decode_payload :
      RxState → List Sample → Bool → ℕ → Result ReadFault (Option (List ℕ) × RxState)
  decode_payload r data_symbols fec_enabled_flag payload_bit_count =
      let total_data_bits = 35 + payload_bit_count + 32 in
      let total_data_symbols = (total_data_bits + 1) / 2 in
      let bits = take total_data_bits (demap c (take total_data_symbols data_symbols)) in
      if ltb (length data_symbols) total_data_symbols then ok (none, r) else (do
        frame_opt ← if fec_enabled_flag then parse_unchecked bits else parse bits
        ok (take_payload r frame_opt))

  -- From the header on.
  unfoldable pub decode_symbols :
      RxState → List Sample → Result ReadFault (Option (List ℕ) × RxState)
  decode_symbols r data_symbols =
      let header_bits = demap c (take 18 data_symbols) in
      let frame_length = extract_bits_from_vec header_bits 0 16 % 2 ^ 16 in
      let fec_enabled_flag = if extract_bits_from_vec header_bits 20 1 == 0 then false else true in
      let fec_rate_val = extract_bits_from_vec header_bits 21 2 % 256 in
      if ltb (length data_symbols) 18
      then ok (none, r)
      else elim (payload_bit_count frame_length fec_enabled_flag fec_rate_val) [
        | none ↦ ok (none, r)
        | some count ↦ decode_payload r data_symbols fec_enabled_flag count
      ]

  unfoldable pub try_decode_frame :
      List Sample
      → List ℕ
      → FrameSynchronizer c
      → RxState
      → Result ReadFault (Option (List ℕ) × RxState)
  try_decode_frame recovered doubled_preamble frame_sync r = elim (detect c frame_sync recovered) [
    | none ↦ ok (none, r)
    | some frame_start ↦ decode_symbols r (corrected_symbols doubled_preamble recovered frame_start)
  ]
