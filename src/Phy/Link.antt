-- ===== src/Phy/Link.antt =====
-- The receiver after the transmitter: src/decoder.cpp on the symbols of src/encoder.cpp.
pub mod Received
use native.Mathlib.Nat.{mod-eq_of_lt}
use qpsk_b.Base.{
  ℕ, zero, suc, ◌+◌, ◌-◌, ◌*◌, ◌/◌, ◌%◌, ◌^◌, ◌≤◌, ◌<◌, ◌≡◌, refl, ap, ◌∙◌, sym, Bool, true, false,
  Option, none, some, List, [], ◌∷◌, ◌++◌, if◌then◌else◌, length, length-append, length-take,
  length-replicate, take, replicate, min, All, All-append, bit_and, arith,
}
use qpsk_b.Base.Bits.{IsByte}
use qpsk_b.Base.Elements.{take-take}
use qpsk_b.Base.Result.{Result, ok, err, ◌>>=◌}
use qpsk_b.Phy.Samples.{Samples}
use qpsk_b.Phy.Frame.{
  FrameBuilder, FrameHeader, ReadFault, flag, push_bits, payload_bits, next_header, parse,
  parse_unchecked,
}
use qpsk_b.Phy.Frame.Bits.{bit_and-le}
use qpsk_b.Phy.Frame.RoundTrip.{FitsHeader, frame_crc, bits_with, length-bits_with}
use qpsk_b.Phy.FecEncoder.{CodeRate, rate_1_2, rate_3_4, coded_length}
use qpsk_b.Phy.FecEncoder
use qpsk_b.Phy.FecEncoder.Length.{length-encode}
use qpsk_b.Phy.FecDecoder.RoundTrip.{push_bits-IsBit, payload_bits-IsBit}
use qpsk_b.Phy.SymbolMapper.{SymbolFault, demap}
use qpsk_b.Phy.SymbolMapper
use qpsk_b.Phy.SymbolMapper.RoundTrip.{length-demap, demap-take, demap-map}
use qpsk_b.Phy.FrameSync.{FrameSynchronizer, detect}
use qpsk_b.Phy.Encoder.{Config, rate_value, data_bits, make_doubled_preamble}
use qpsk_b.Phy.Encoder.Layout.{carried, header_of, data_bits_lem}
use qpsk_b.Phy.Decoder.{
  RxState, payload_bit_count, rate_of, extract_bits_from_vec, corrected_symbols, decode_payload,
  decode_symbols, take_payload, try_decode_frame,
}
use qpsk_b.Phy.Decoder.Header.{
  read_length, read_flag, read_rate, decode_symbols_at, decode_payload_at,
}
use qpsk_b.Phy.Link.Received.{Delivers, received}

bits_with-IsBit :
    (h : FrameHeader) (payload : List ℕ) (crc : ℕ) → All (λ b. b < 2) (bits_with h payload crc)
unfolding bits_with
bits_with-IsBit h payload crc =
    All-append _ (push_bits 16 h.payload_length) _ (push_bits-IsBit 16 h.payload_length) (
      All-append _ (push_bits 4 h.padding_bits) _ (push_bits-IsBit 4 h.padding_bits) (
        flag-lt h.fec_enabled,
        All-append _ (push_bits 2 h.fec_code_rate) _ (push_bits-IsBit 2 h.fec_code_rate) (
            All-append _ (push_bits 12 h.sequence_number) _ (push_bits-IsBit 12 h.sequence_number) (
              All-append _ (payload_bits payload) _ (payload_bits-IsBit payload)
                (push_bits-IsBit 32 crc))),
      ))
  where
    flag-lt : (fec : Bool) → flag fec < 2
    flag-lt true = omega arith
    flag-lt false = omega arith

rate_value-kept : (rate : CodeRate) → bit_and (rate_value rate) 3 ≡ rate_value rate
unfolding rate_value
rate_value-kept rate_1_2 = refl
rate_value-kept rate_3_4 = refl

rate_value-lt : (rate : CodeRate) → rate_value rate < 4
unfolding rate_value
rate_value-lt rate_1_2 = omega arith
rate_value-lt rate_3_4 = omega arith

-- The receiver counts the bits that the transmitter put in.
count_carried :
    (fec : Bool) (rate : CodeRate) (payload : List ℕ)
    → length payload < 2 ^ 16
    → payload_bit_count (length payload) fec (rate_value rate)
      ≡ some (length (if fec then FecEncoder.encode rate payload else payload) * 8)
unfolding payload_bit_count rate_of rate_value
count_carried true rate_1_2 payload h =
    ap (λ (n : ℕ). some (n * 8)) (sym (length-encode rate_1_2 payload (omega arith)))
count_carried true rate_3_4 payload h =
    ap (λ (n : ℕ). some (n * 8)) (sym (length-encode rate_3_4 payload (omega arith)))
count_carried false rate payload h = refl

module _ (c : Samples) (r : RxState) (h : FrameHeader) (carrying : List ℕ) (crc : ℕ) (pad : List ℕ)
    (data_symbols sent : List (Samples.Sample c))
    (bits : demap c sent ≡ bits_with h carrying crc ++ pad)
    (padded : length pad ≡ length (bits_with h carrying crc) % 2)
    (heard : demap c (take (length sent) data_symbols) ≡ demap c sent) where
  size : length sent ≡ (35 + length carrying * 8 + 32 + 1) / 2
  size = omega (
    arith,
    length-demap c sent,
    ap length bits,
    length-append {0} (bits_with h carrying crc) pad,
    padded,
    length-bits_with h carrying crc,
  )

  enough : length sent ≤ length data_symbols
  enough = omega (
    arith,
    length-take {0} (length sent) data_symbols,
    length-demap c (take (length sent) data_symbols),
    ap length heard,
    length-demap c sent,
  )

  first_symbols : demap c (take 18 data_symbols) ≡ take 36 (bits_with h carrying crc ++ pad)
  first_symbols =
      ap (demap c) (sym (take-take 18 (length sent) data_symbols (omega (arith, size))))
      ∙ demap-take c 18 (take (length sent) data_symbols)
      ∙ ap (take 36) (heard ∙ bits)

  decode_symbols-parses :
      FitsHeader h
      → payload_bit_count h.payload_length h.fec_enabled h.fec_code_rate
        ≡ some (length carrying * 8)
      → decode_symbols c r data_symbols ≡ (do
        frame_opt ←
            if h.fec_enabled
            then parse_unchecked (bits_with h carrying crc)
            else parse (bits_with h carrying crc)
        ok (take_payload r frame_opt))
  decode_symbols-parses f count =
      let first = first_symbols in
      decode_symbols_at c r data_symbols h.payload_length h.fec_enabled h.fec_code_rate
        (length carrying * 8) (omega (arith, size, enough))
        (ap (λ b. extract_bits_from_vec b 0 16) first ∙ read_length h carrying crc pad f.0) f.0
        (ap (λ b. extract_bits_from_vec b 20 1) first ∙ read_flag h carrying crc pad)
        (ap (λ b. extract_bits_from_vec b 21 2) first ∙ read_rate h carrying crc pad f.3) f.3 count
      ∙ decode_payload_at c r data_symbols h.fec_enabled (length carrying * 8)
          (bits_with h carrying crc) pad (omega (arith, length-bits_with h carrying crc))
          (omega (arith, size, enough))
          (ap (λ n. demap c (take n data_symbols)) (sym size) ∙ heard ∙ bits)

module _ (g : Config) (b : FrameBuilder) (payload : List ℕ) (short : length payload < 2 ^ 16) where
  header_length : (header_of g b payload).payload_length ≡ length payload
  unfolding next_header
  header_length = omega arith

  header_fits : FitsHeader (header_of g b payload)
  unfolding next_header
  header_fits = (
    omega arith,
    omega arith,
    omega (arith, bit_and-le b.seq_num 0x0FFF),
    omega (arith, bit_and-le (rate_value g.fec_code_rate) 3),
  )

  header_count :
      payload_bit_count
        (header_of g b payload).payload_length
        (header_of g b payload).fec_enabled
        (header_of g b payload).fec_code_rate
      ≡ some (length (carried g payload) * 8)
  unfolding next_header carried
  header_count =
      ap (λ n. payload_bit_count n g.fec_enabled (bit_and (rate_value g.fec_code_rate) 3))
        header_length
      ∙ ap (payload_bit_count (length payload) g.fec_enabled) (rate_value-kept g.fec_code_rate)
      ∙ count_carried g.fec_enabled g.fec_code_rate payload short

  -- What the receiver makes of the bits of this frame.
  carried_received :
      (r : RxState) (crc : ℕ)
      → crc ≡ frame_crc (header_of g b payload) payload
      → All IsByte payload
      → r.fec_decoder.code_rate ≡ g.fec_code_rate
      → r.fec_decoder.corrected_errors < 2 ^ 64
      → (result : Option (List ℕ) × RxState) × ((do
        frame_opt ←
            if (header_of g b payload).fec_enabled
            then parse_unchecked (bits_with (header_of g b payload) (carried g payload) crc)
            else parse (bits_with (header_of g b payload) (carried g payload) crc)
        ok (take_payload r frame_opt))
          ≡ ok result)
        × Delivers r payload result
  unfolding next_header carried
  carried_received r crc own bytes rate small =
      let h = header_of g b payload in
      let found =
        received h payload crc own g.fec_enabled r refl header_fits header_length bytes short
          small in
      (
        found.0,
        ap
              (λ rate. do
                frame_opt ←
                    if g.fec_enabled
                    then parse_unchecked (
                        bits_with h
                          (if g.fec_enabled then FecEncoder.encode rate payload else payload) crc)
                    else parse (
                        bits_with h
                          (if g.fec_enabled then FecEncoder.encode rate payload else payload) crc)
                ok (take_payload r frame_opt))
              (sym rate)
            ∙ found.1,
        found.2,
      )

try_decode_frame_at :
    (c : Samples) (recovered : List (Samples.Sample c)) (doubled_preamble : List ℕ)
    (sync : FrameSynchronizer c) (start : ℕ) (r : RxState)
    → detect c sync recovered ≡ some start
    → try_decode_frame c recovered doubled_preamble sync r
      ≡ decode_symbols c r (corrected_symbols c doubled_preamble recovered start)
unfolding try_decode_frame
try_decode_frame_at c recovered doubled_preamble sync start r found =
    rw (found, try_decode_frame) refl

-- A payload of fewer than 2^16 bytes, sent with error correction or without, is what the receiver
-- gives, provided that both ends use the same code rate, that the synchronizer finds a start, and that
-- as many symbols as were sent, from that start on and with the phase corrected, are demapped to the
-- bits of those that were sent. No frame but this one is counted, and the count of corrected errors,
-- which has 64 bits, stays.
pub try_decode_frame-delivers :
    (c : Samples) (g : Config) (b : FrameBuilder) (payload : List ℕ) (padding : ℕ)
    (sent recovered : List (Samples.Sample c)) (sync : FrameSynchronizer c) (start : ℕ)
    (r : RxState)
    → b.preamble ≡ make_doubled_preamble g.preamble
    → All IsByte payload
    → length payload < 2 ^ 16
    → r.fec_decoder.code_rate ≡ g.fec_code_rate
    → r.fec_decoder.corrected_errors < 2 ^ 64
    → SymbolMapper.map c (data_bits g b payload) ≡ ok (sent, padding)
    → detect c sync recovered ≡ some start
    → demap c (take (length sent) (corrected_symbols c b.preamble recovered start)) ≡ demap c sent
    → (result : Option (List ℕ) × RxState) × (try_decode_frame c recovered b.preamble sync r
        ≡ ok result)
      × Delivers r payload result
try_decode_frame-delivers c g b payload padding sent recovered sync start r doubled bytes short rate
      small mapped found heard =
    let h = header_of g b payload in
    let crc = frame_crc h payload in
    let layout = data_bits_lem g b payload doubled in
    let (symbols, made, read) =
      demap-map c (bits_with h (carried g payload) crc)
        (bits_with-IsBit h (carried g payload) crc) in
    let same : symbols ≡ sent = ground (arith, ap (SymbolMapper.map c) layout) in
    let bits = ap (demap c) (sym same) ∙ read in
    let pad = replicate (length (bits_with h (carried g payload) crc) % 2) 0 in
    let padded = length-replicate {0} (length (bits_with h (carried g payload) crc) % 2) 0 in
    let data_symbols = corrected_symbols c b.preamble recovered start in
    let parses =
      decode_symbols-parses c r h (carried g payload) crc pad data_symbols sent bits padded heard
        (header_fits g b payload short) (header_count g b payload short) in
    let (result, given, delivers) =
      carried_received g b payload short r crc refl bytes rate small in
    (
      result,
      try_decode_frame_at c recovered b.preamble sync start r found ∙ parses ∙ given,
      delivers,
    )
