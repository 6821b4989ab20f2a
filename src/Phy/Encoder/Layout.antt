-- ===== src/Phy/Encoder/Layout.antt =====
-- The bits that follow the preamble: a header, what is carried, and the CRC of the payload.
use qpsk_b.Base.{
  ℕ, ◌+◌, ◌-◌, ◌*◌, ◌≡◌, refl, ap, ◌∙◌, sym, Bool, true, false, List, ◌∷◌, ◌++◌, append_assoc,
  if◌then◌else◌, length, length-append, take, take-append_length, drop, drop-append_length, arith,
}
use qpsk_b.Phy.Frame.{
  FrameBuilder, FrameHeader, build_frame, next_header, flag, push_bits, payload_bits,
}
use qpsk_b.Phy.Frame.Bits.{length-push_bits}
use qpsk_b.Phy.Frame.RoundTrip.{frame_crc, bits_with, frame_bits-eq-bits_with}
use qpsk_b.Phy.FecEncoder
use qpsk_b.Phy.Frame
use qpsk_b.Phy.Encoder.{Config, rate_value, splice, frame_bits, data_bits, make_doubled_preamble}

header_bits : FrameHeader → List ℕ
header_bits h =
    push_bits 16 h.payload_length
    ++ (push_bits 4 h.padding_bits
        ++ (flag h.fec_enabled ∷ (push_bits 2 h.fec_code_rate ++ push_bits 12 h.sequence_number)))

bits_with-eq-append :
    (h : FrameHeader) (payload : List ℕ) (crc : ℕ)
    → bits_with h payload crc ≡ header_bits h ++ (payload_bits payload ++ push_bits 32 crc)
unfolding bits_with header_bits push_bits
bits_with-eq-append h payload crc = refl

length-header_bits : (h : FrameHeader) → length (header_bits h) ≡ 35
unfolding header_bits push_bits
length-header_bits h = refl

module _ (pre : List ℕ) (h : FrameHeader) (payload coded : List ℕ) (crc : ℕ) where
  front : List ℕ
  front = pre ++ header_bits h

  length-front : length front ≡ length pre + 35
  unfolding front
  length-front = omega (arith, length-append pre (header_bits h), length-header_bits h)

  whole : pre ++ bits_with h payload crc ≡ front ++ (payload_bits payload ++ push_bits 32 crc)
  unfolding front
  whole =
      ap (λ l. pre ++ l) (bits_with-eq-append h payload crc)
      ∙ sym (append_assoc pre (header_bits h) (payload_bits payload ++ push_bits 32 crc))

  kept_front : take (length pre + 35) (pre ++ bits_with h payload crc) ≡ front
  kept_front =
      ap (take (length pre + 35)) whole
      ∙ ap (λ n. take n (front ++ (payload_bits payload ++ push_bits 32 crc))) (sym length-front)
      ∙ take-append_length front (payload_bits payload ++ push_bits 32 crc)

  kept_crc :
      drop (length (pre ++ bits_with h payload crc) - 32) (pre ++ bits_with h payload crc)
      ≡ push_bits 32 crc
  kept_crc =
      let before = front ++ payload_bits payload in
      let split = whole ∙ sym (append_assoc front (payload_bits payload) (push_bits 32 crc)) in
      let size : length (pre ++ bits_with h payload crc) - 32 ≡ length before = omega (
        arith,
        ap length split,
        length-append before (push_bits 32 crc),
        length-push_bits 32 crc,
      ) in
      ap (λ n. drop n (pre ++ bits_with h payload crc)) size
      ∙ ap (drop (length before)) split
      ∙ drop-append_length before (push_bits 32 crc)

  splice_lem :
      splice (length pre) (pre ++ bits_with h payload crc) coded ≡ pre ++ bits_with h coded crc
  unfolding splice front
  splice_lem =
      ap
        (λ l.
          l
          ++ (payload_bits coded
              ++ drop (length (pre ++ bits_with h payload crc) - 32)
                  (pre ++ bits_with h payload crc)))
        kept_front
      ∙ ap (λ l. (pre ++ header_bits h) ++ (payload_bits coded ++ l)) kept_crc
      ∙ append_assoc pre (header_bits h) (payload_bits coded ++ push_bits 32 crc)
      ∙ ap (λ l. pre ++ l) (sym (bits_with-eq-append h coded crc))

chosen :
    (fec : Bool) (n : ℕ) (pre bits : List ℕ) (h : FrameHeader) (payload coded : List ℕ) (crc : ℕ)
    → n ≡ length pre
    → bits ≡ pre ++ bits_with h payload crc
    → (if fec then splice n bits coded else bits)
      ≡ pre ++ bits_with h (if fec then coded else payload) crc
chosen true n pre bits h payload coded crc size e =
    ap (λ n. splice n bits coded) size
    ∙ ap (λ l. splice (length pre) l coded) e
    ∙ splice_lem pre h payload coded crc
chosen false n pre bits h payload coded crc size e = e

-- What the frame carries in the place of the payload.
unfoldable pub carried : Config → List ℕ → List ℕ
carried g payload = if g.fec_enabled then FecEncoder.encode g.fec_code_rate payload else payload

abbrev pub header_of : Config → FrameBuilder → List ℕ → FrameHeader
header_of g b payload = next_header b payload 0 g.fec_enabled (rate_value g.fec_code_rate)

module _ (g : Config) (b : FrameBuilder) (payload : List ℕ)
    (doubled : b.preamble ≡ make_doubled_preamble g.preamble) where
  size_of_preamble : length g.preamble * 2 ≡ length b.preamble
  unfolding make_doubled_preamble
  size_of_preamble = omega (arith, ap length doubled, length-append {0} g.preamble g.preamble)

  frame_bits_lem :
      (frame_bits g b payload).0
      ≡ b.preamble
        ++ bits_with
            (header_of g b payload)
            (carried g payload)
            (frame_crc (header_of g b payload) payload)
  unfolding frame_bits build_frame carried
  frame_bits_lem =
      let h = header_of g b payload in
      chosen g.fec_enabled (length g.preamble * 2) b.preamble
        (b.preamble ++ Frame.frame_bits h payload) h payload
        (FecEncoder.encode g.fec_code_rate payload) (frame_crc h payload) size_of_preamble
        (ap (λ l. b.preamble ++ l) (frame_bits-eq-bits_with h payload))

  pub data_bits_lem :
      data_bits g b payload
      ≡ bits_with
          (header_of g b payload)
          (carried g payload)
          (frame_crc (header_of g b payload) payload)
  unfolding data_bits
  data_bits_lem =
      let rest =
        bits_with (header_of g b payload) (carried g payload)
          (frame_crc (header_of g b payload) payload) in
      ap (λ n. drop n (frame_bits g b payload).0) size_of_preamble
      ∙ ap (drop (length b.preamble)) frame_bits_lem
      ∙ drop-append_length b.preamble rest
