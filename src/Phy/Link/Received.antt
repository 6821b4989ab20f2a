-- ===== src/Phy/Link/Received.antt =====
-- What the receiver does with the bits of a frame once it has them.
use qpsk_b.Base.{
  ℕ, ◌+◌, ◌<◌, ◌^◌, ◌≡◌, refl, ap, ◌∙◌, Bool, true, false, Option, some, List, if◌then◌else◌,
  le→ltb, ltb, length, take, ==_refl, All, arith,
}
use qpsk_b.Base.Bits.{IsByte, add64}
use qpsk_b.Base.Elements.{take_all}
use qpsk_b.Base.Result.{ok, ◌>>=◌}
use qpsk_b.Phy.Frame.{FrameHeader, parse, parse_unchecked, verify_crc, checked}
use qpsk_b.Phy.Frame.RoundTrip.{
  FitsHeader, frame_crc, crc_bound, bits_with, length-bits_with, carrying, parse_fields-bits_with,
}
use qpsk_b.Phy.FecEncoder.{CodeRate}
use qpsk_b.Phy.FecEncoder
use qpsk_b.Phy.FecDecoder.{FecDecoder}
use qpsk_b.Phy.FecDecoder
use qpsk_b.Phy.FecDecoder.RoundTrip.{encode-IsByte, decode-fec_encode}
use qpsk_b.Phy.Decoder.{RxState, count_frame, take_coded, take_plain, take_payload}

-- The payload, one more frame received, and the error corrector as it was.
pub record Delivers (r : RxState) (payload : List ℕ) (result : Option (List ℕ) × RxState)
    : Type 0 where
  pub payload_given : result.0 ≡ some payload
  pub decoder_kept : result.1.fec_decoder ≡ r.fec_decoder
  pub frame_counted : result.1.diag.frames_received ≡ add64 r.diag.frames_received 1

module _ (h : FrameHeader) (carried : List ℕ) (crc : ℕ) where
  long : ltb (length (bits_with h carried crc)) (35 + 32) ≡ false
  long = le→ltb _ _ (omega (arith, length-bits_with h carried crc))

  parse_unchecked-bits_with :
      FitsHeader h
      → All IsByte carried
      → crc < 2 ^ 32
      → parse_unchecked (bits_with h carried crc) ≡ ok (some (carrying h carried crc))
  unfolding parse_unchecked
  parse_unchecked-bits_with f b small =
      rw (long, parse_fields-bits_with h carried crc f b small) refl

  parse-bits_with :
      FitsHeader h
      → All IsByte carried
      → crc < 2 ^ 32
      → parse (bits_with h carried crc) ≡ ok (checked (carrying h carried crc))
  unfolding parse
  parse-bits_with f b small = rw (long, parse_fields-bits_with h carried crc f b small) refl

module _ (h : FrameHeader) (payload : List ℕ) (crc : ℕ) (own : crc ≡ frame_crc h payload) where
  crc_holds :
      (carried : List ℕ) → verify_crc (record (carrying h carried crc) { payload = payload }) ≡ true
  unfolding verify_crc
  crc_holds carried = rw own (==_refl (frame_crc h payload))

  take_coded-Delivers :
      (r : RxState)
      → h.payload_length ≡ length payload
      → All IsByte payload
      → length payload < 2 ^ 16
      → r.fec_decoder.corrected_errors < 2 ^ 64
      → Delivers r payload
          (take_coded r (carrying h (FecEncoder.encode r.fec_decoder.code_rate payload) crc))
  unfolding take_coded count_frame
  take_coded-Delivers r e b short small =
      let decoded =
        ap (FecDecoder.decode r.fec_decoder (FecEncoder.encode r.fec_decoder.code_rate payload)) e
        ∙ decode-fec_encode r.fec_decoder payload b short small in
      let holds = crc_holds (FecEncoder.encode r.fec_decoder.code_rate payload) in
      rw (decoded, holds)
        (record { payload_given = refl; decoder_kept = refl; frame_counted = refl })

  take_plain-Delivers :
      (r : RxState)
      → h.payload_length ≡ length payload
      → Delivers r payload (take_plain r (record (carrying h payload crc) { crc_valid = true }))
  unfolding take_plain count_frame
  take_plain-Delivers r e =
      let whole = ap (λ n. take n payload) e ∙ take_all (length payload) payload (omega arith) in
      record { payload_given = ap some whole; decoder_kept = refl; frame_counted = refl }

  checked-carrying :
      checked (carrying h payload crc) ≡ some (record (carrying h payload crc) { crc_valid = true })
  unfolding checked
  checked-carrying = rw (crc_holds payload) refl

  -- The bits of a frame, with the payload coded or not, give the payload.
  pub received :
      (fec : Bool) (r : RxState)
      → h.fec_enabled ≡ fec
      → FitsHeader h
      → h.payload_length ≡ length payload
      → All IsByte payload
      → length payload < 2 ^ 16
      → r.fec_decoder.corrected_errors < 2 ^ 64
      → (result : Option (List ℕ) × RxState) × ((do
        frame_opt ←
            if fec
            then parse_unchecked (
                bits_with h
                  (if fec then FecEncoder.encode r.fec_decoder.code_rate payload else payload)
                  crc)
            else parse (
                bits_with h
                  (if fec then FecEncoder.encode r.fec_decoder.code_rate payload else payload)
                  crc)
        ok (take_payload r frame_opt))
          ≡ ok result)
        × Delivers r payload result
  unfolding take_payload
  received true r flagged f e b short small =
      let coded = FecEncoder.encode r.fec_decoder.code_rate payload in
      let bound : crc < 2 ^ 32 = omega (arith, own, crc_bound h payload) in
      let parsed =
        parse_unchecked-bits_with h coded crc f (encode-IsByte r.fec_decoder.code_rate payload)
          bound in
      (
        take_coded r (carrying h coded crc),
        rw (parsed, flagged) refl,
        take_coded-Delivers r e b short small,
      )
  received false r flagged f e b short small =
      let bound : crc < 2 ^ 32 = omega (arith, own, crc_bound h payload) in
      let parsed = parse-bits_with h payload crc f b bound in
      (
        take_plain r (record (carrying h payload crc) { crc_valid = true }),
        rw (parsed, checked-carrying, flagged) refl,
        take_plain-Delivers r e,
      )
