-- ===== src/Phy/Frame/RoundTrip.antt =====
-- What `FrameParser::parse` reads from a frame of `FrameBuilder::build_frame`.
use native.Mathlib.Nat.{mod-lt}
use qpsk_b.Base.{
  ℕ, ◌+◌, ◌-◌, ◌*◌, ◌/◌, ◌%◌, ◌^◌, ◌<◌, ◌≡◌, refl, ap, ◌∙◌, Bool, true, false, some, none, List, [],
  ◌∷◌, ◌++◌, bit_and, arith, All, length, length-append, drop, drop-append_length, ltb, ◌==◌,
  ==_refl, if◌then◌else◌,
}
use qpsk_b.Base.Bits.{IsByte}
use qpsk_b.Base.Result.{ok}
use qpsk_b.Phy.Frame.{
  Frame, FrameHeader, FrameBuilder, flag, push_bits, payload_bits, frame_bits, header_bytes,
  compute_crc32, extract_bits, extract_loop, parse_fields, parse, checked, verify_crc, next_header,
  build_frame,
}
use qpsk_b.Phy.Frame.Bits.{
  bit_and-le, rate_bits, extract-push_bits, length-push_bits, payload_loop-payload_bits,
  length-payload_bits,
}

-- The fields have the widths that the header gives them.
abbrev pub FitsHeader : FrameHeader → Type 0
FitsHeader h =
    (h.payload_length < 2 ^ 16)
    × (h.padding_bits < 16)
    × (h.sequence_number < 4096)
    × (h.fec_code_rate < 4)

abbrev pub frame_crc : FrameHeader → List ℕ → ℕ
frame_crc h payload = compute_crc32 (header_bytes h ++ payload)

pub crc_bound : (h : FrameHeader) (payload : List ℕ) → frame_crc h payload < 2 ^ 32
unfolding compute_crc32
crc_bound h payload = omega arith

-- The bits of a frame that carries these bytes and this CRC.
unfoldable pub bits_with : FrameHeader → List ℕ → ℕ → List ℕ
bits_with h payload crc =
    push_bits 16 h.payload_length
    ++ (push_bits 4 h.padding_bits
        ++ (flag h.fec_enabled
            ∷ (push_bits 2 h.fec_code_rate
                ++ (push_bits 12 h.sequence_number ++ (payload_bits payload ++ push_bits 32 crc)))))

pub frame_bits-eq-bits_with :
    (h : FrameHeader) (payload : List ℕ)
    → frame_bits h payload ≡ bits_with h payload (frame_crc h payload)
unfolding frame_bits bits_with
frame_bits-eq-bits_with h payload = refl

pub length-bits_with :
    (h : FrameHeader) (payload : List ℕ) (crc : ℕ)
    → length (bits_with h payload crc) ≡ 35 + (length payload * 8 + 32)
unfolding bits_with push_bits
length-bits_with h payload crc = omega (
  arith,
  length-append (payload_bits payload) (push_bits 32 crc),
  length-payload_bits payload,
  length-push_bits 32 crc,
)

pub fec-extract : (fec : Bool) (rest : List ℕ) → extract_loop 1 0 (flag fec ∷ rest) ≡ ok (flag fec)
unfolding extract_loop
fec-extract true rest = refl
fec-extract false rest = refl

flag_test : (fec : Bool) → (if flag fec == 0 then false else true) ≡ fec
flag_test true = refl
flag_test false = refl

-- The frame with these fields, not yet verified.
abbrev pub carrying : FrameHeader → List ℕ → ℕ → Frame
carrying h payload crc = record { header = h; payload = payload; crc = crc; crc_valid = false }

abbrev pub unverified : FrameHeader → List ℕ → Frame
unverified h payload = carrying h payload (frame_crc h payload)

-- The fields of any bits in the layout of a frame, whatever the CRC.
pub parse_fields-bits_with :
    (h : FrameHeader) (payload : List ℕ) (crc : ℕ)
    → FitsHeader h
    → All IsByte payload
    → crc < 2 ^ 32
    → parse_fields (bits_with h payload crc) ≡ ok (carrying h payload crc)
unfolding parse_fields bits_with extract_bits push_bits
parse_fields-bits_with h payload crc f b small =
    let bits = bits_with h payload crc in
    let count = length-bits_with h payload crc in
    let bytes : (length bits - 35 - 32) / 8 ≡ length payload = omega arith in
    let none_left : (length bits - 35 - 32) % 8 ≡ 0 = omega arith in
    let e1 = extract-push_bits 16 h.payload_length (drop 16 bits) f.0 (omega arith) in
    let e2 = extract-push_bits 4 h.padding_bits (drop 20 bits) f.1 (omega arith) in
    let e3 = fec-extract h.fec_enabled (drop 21 bits) in
    let e4 = extract-push_bits 2 h.fec_code_rate (drop 23 bits) f.3 (omega arith) in
    let e5 = extract-push_bits 12 h.sequence_number (drop 35 bits) f.2 (omega arith) in
    let e6 = payload_loop-payload_bits payload (push_bits 32 crc) b in
    let e7 = extract-push_bits 32 crc [] small small in
    rw (e1, e2, e3, e4, e5, bytes, none_left, e6, e7, flag_test h.fec_enabled) refl

parse_fields-frame_bits :
    (h : FrameHeader) (payload : List ℕ)
    → FitsHeader h
    → All IsByte payload
    → parse_fields (frame_bits h payload) ≡ ok (unverified h payload)
parse_fields-frame_bits h payload f b =
    ap parse_fields (frame_bits-eq-bits_with h payload)
    ∙ parse_fields-bits_with h payload (frame_crc h payload) f b (crc_bound h payload)

length-frame_bits :
    (h : FrameHeader) (payload : List ℕ)
    → length (frame_bits h payload) ≡ 35 + (length payload * 8 + 32)
length-frame_bits h payload =
    ap length (frame_bits-eq-bits_with h payload) ∙ length-bits_with h payload (frame_crc h payload)

-- Bits in the layout of a frame, with a header whose fields fit their widths, a payload of bytes and any CRC
-- of 32 bits: the checked parser gives the frame, marked as valid, exactly if the CRC is that of the five
-- bytes of the header and the payload, and none otherwise.
pub parse-any_crc :
    (h : FrameHeader) (payload : List ℕ) (crc : ℕ)
    → FitsHeader h
    → All IsByte payload
    → crc < 2 ^ 32
    → parse (bits_with h payload crc)
      ≡ ok (
          if frame_crc h payload == crc
          then some (record (carrying h payload crc) { crc_valid = true })
          else none)
unfolding parse checked verify_crc
parse-any_crc h payload crc f b small =
    let count = length-bits_with h payload crc in
    let long : ltb (length (bits_with h payload crc)) (35 + 32) ≡ false = ground arith in
    rw (long, parse_fields-bits_with h payload crc f b small) refl

pub parse-frame_bits :
    (h : FrameHeader) (payload : List ℕ)
    → FitsHeader h
    → All IsByte payload
    → parse (frame_bits h payload) ≡ ok (some (record (unverified h payload) { crc_valid = true }))
unfolding parse checked verify_crc
parse-frame_bits h payload f b =
    let count = length-frame_bits h payload in
    let long : ltb (length (frame_bits h payload)) (35 + 32) ≡ false = ground arith in
    rw (long, parse_fields-frame_bits h payload f b, ==_refl (frame_crc h payload)) refl

-- A frame of `build_frame`, for a payload of bytes, padding bits below 16 and a code rate that is one
-- of the two, is parsed, after its preamble, to the header fields and the payload given, with a valid
-- CRC. The length field is the length of the payload modulo 2^16.
pub parse-build_frame :
    (b : FrameBuilder) (payload : List ℕ) (padding_bits : ℕ) (fec_enabled : Bool)
    (fec_code_rate : ℕ)
    → All IsByte payload
    → padding_bits < 16
    → fec_code_rate < 2
    → parse
        (drop (length b.preamble) (build_frame b payload padding_bits fec_enabled fec_code_rate).0)
      ≡ ok (
          some (record {
            header = record {
              payload_length = length payload % 2 ^ 16;
              padding_bits = padding_bits;
              sequence_number = bit_and b.seq_num 0x0FFF;
              fec_enabled = fec_enabled;
              fec_code_rate = fec_code_rate;
            };
            payload = payload;
            crc = frame_crc (next_header b payload padding_bits fec_enabled fec_code_rate) payload;
            crc_valid = true;
          }))
unfolding build_frame next_header
parse-build_frame b payload padding_bits fec_enabled fec_code_rate h p r =
    let rate = rate_bits fec_code_rate r in
    let header = next_header b payload padding_bits fec_enabled fec_code_rate in
    let fits : FitsHeader header = (
      mod-lt (length payload) (omega arith),
      p,
      omega (arith, bit_and-le b.seq_num 0x0FFF),
      omega arith,
    ) in
    ap parse (drop-append_length b.preamble (frame_bits header payload))
    ∙ parse-frame_bits header payload fits h
    ∙ ap
        (λ r. ok (
          some (record {
            header = record {
              payload_length = length payload % 2 ^ 16;
              padding_bits = padding_bits;
              sequence_number = bit_and b.seq_num 0x0FFF;
              fec_enabled = fec_enabled;
              fec_code_rate = r;
            };
            payload = payload;
            crc = frame_crc header payload;
            crc_valid = true;
          })))
        rate
