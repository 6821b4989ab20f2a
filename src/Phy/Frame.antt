-- ===== src/Phy/Frame.antt =====
-- include/qpsk_b200/frame.h, src/frame_builder.cpp and src/frame_parser.cpp: the frame as a vector of
-- bits. A code rate is the number of its enumerator; `pos` moves on by reading a list of bits.
pub mod Bits
pub mod RoundTrip
pub mod Total
use qpsk_b.Base.{
  ℕ, zero, suc, ◌+◌, ◌-◌, ◌*◌, ◌/◌, ◌%◌, ◌^◌, Bool, true, false, Option, none, some, List, [], ◌∷◌,
  ◌++◌, ltb, ◌==◌, if◌then◌else◌, length, drop, bit_and, bit_or, bit_xor,
}
use qpsk_b.Base.Bits.{shr}
use qpsk_b.Base.Result.{Result, ok, err, ◌>>=◌}

-- The eight rounds of `make_crc32_table` for one entry.
unfoldable pub crc_rounds : ℕ → ℕ → ℕ
crc_rounds zero crc = crc
crc_rounds (suc j) crc =
    crc_rounds j (if bit_and crc 1 == 1 then bit_xor (shr crc 1) 0xEDB88320 else shr crc 1)

-- `CRC32_TABLE[i]`.
unfoldable pub crc32_table : ℕ → ℕ
crc32_table i = crc_rounds 8 i

unfoldable pub crc_loop : ℕ → List ℕ → ℕ
crc_loop crc [] = crc
crc_loop crc (byte ∷ bytes) =
    crc_loop (bit_xor (crc32_table (bit_and (bit_xor crc byte) 0xFF)) (shr crc 8)) bytes

-- The result is a `uint32_t`.
unfoldable pub compute_crc32 : List ℕ → ℕ
compute_crc32 bytes = bit_xor (crc_loop 0xFFFFFFFF bytes) 0xFFFFFFFF % 2 ^ 32

pub record FrameHeader : Type 0 where
  pub payload_length : ℕ
  pub padding_bits : ℕ
  pub sequence_number : ℕ
  pub fec_enabled : Bool
  pub fec_code_rate : ℕ

pub record Frame : Type 0 where
  pub header : FrameHeader
  pub payload : List ℕ
  pub crc : ℕ
  pub crc_valid : Bool

pub record FrameBuilder : Type 0 where
  pub preamble : List ℕ
  pub seq_num : ℕ

abbrev pub flag : Bool → ℕ
flag fec_enabled = if fec_enabled then 1 else 0

-- `header_bytes`, in the builder and in the parser.
unfoldable pub header_bytes : FrameHeader → List ℕ
header_bytes h =
    let fl = h.payload_length in
    let seq = h.sequence_number in
    bit_and (shr fl 8) 0xFF
    ∷ bit_and fl 0xFF
    ∷ bit_or
        (bit_or (bit_or (bit_and h.padding_bits 0x0F * 2 ^ 4) (flag h.fec_enabled * 2 ^ 3))
          (bit_and h.fec_code_rate 3 * 2))
        (bit_and (shr seq 11) 1)
      % 256
    ∷ bit_and (shr seq 3) 0xFF
    ∷ bit_and seq 7 * 2 ^ 5
    ∷ []

-- `for (int i = n - 1; i >= 0; --i) bits.push_back((value >> i) & 1u)`.
unfoldable pub push_bits : ℕ → ℕ → List ℕ
push_bits zero value = []
push_bits (suc i) value = bit_and (shr value i) 1 ∷ push_bits i value

unfoldable pub payload_bits : List ℕ → List ℕ
payload_bits [] = []
payload_bits (byte ∷ bytes) = push_bits 8 byte ++ payload_bits bytes

-- The header of the next frame.
unfoldable pub next_header : FrameBuilder → List ℕ → ℕ → Bool → ℕ → FrameHeader
next_header b payload padding_bits fec_enabled fec_code_rate = record {
  payload_length = length payload % 2 ^ 16;
  padding_bits = padding_bits;
  sequence_number = bit_and b.seq_num 0x0FFF;
  fec_enabled = fec_enabled;
  fec_code_rate = bit_and fec_code_rate 3;
}

-- The bits behind the preamble.
unfoldable pub frame_bits : FrameHeader → List ℕ → List ℕ
frame_bits h payload =
    push_bits 16 h.payload_length
    ++ (push_bits 4 h.padding_bits
        ++ (flag h.fec_enabled
            ∷ (push_bits 2 h.fec_code_rate
                ++ (push_bits 12 h.sequence_number
                    ++ (payload_bits payload
                        ++ push_bits 32 (compute_crc32 (header_bytes h ++ payload)))))))

-- The frame, and the builder with the next sequence number.
unfoldable pub build_frame : FrameBuilder → List ℕ → ℕ → Bool → ℕ → List ℕ × FrameBuilder
build_frame b payload padding_bits fec_enabled fec_code_rate =
    let h = next_header b payload padding_bits fec_enabled fec_code_rate in
    (b.preamble ++ frame_bits h payload, record b { seq_num = bit_and (b.seq_num + 1) 0x0FFF })

-- A read past the end of the vector.
pub data ReadFault : Type 0 where
  past_end : ReadFault

-- The loop of `extract_bits` on the bits from its position on; `value` is a `uint32_t`.
unfoldable pub extract_loop : ℕ → ℕ → List ℕ → Result ReadFault ℕ
extract_loop zero value bits = ok value
extract_loop (suc count) value [] = err past_end
extract_loop (suc count) value (bit ∷ bits) =
    extract_loop count (bit_or (value * 2 % 2 ^ 32) (bit_and bit 1)) bits

unfoldable pub extract_bits : List ℕ → ℕ → ℕ → Result ReadFault ℕ
extract_bits bits offset count = extract_loop count 0 (drop offset bits)

-- `for (int b = 7; b >= 0; --b)`, with the bits from `pos` on before and after.
unfoldable pub byte_loop : ℕ → ℕ → List ℕ → Result ReadFault (ℕ × List ℕ)
byte_loop zero byte bits = ok (byte, bits)
byte_loop (suc b) byte [] = err past_end
byte_loop (suc b) byte (bit ∷ bits) = byte_loop b (bit_or byte (bit_and bit 1 * 2 ^ b % 256)) bits

unfoldable pub payload_loop : ℕ → List ℕ → Result ReadFault (List ℕ × List ℕ)
payload_loop zero bits = ok ([], bits)
payload_loop (suc n) bits = do
  (byte, bits) ← byte_loop 8 0 bits
  (bytes, bits) ← payload_loop n bits
  ok (byte ∷ bytes, bits)

-- `verify_crc`.
unfoldable pub verify_crc : Frame → Bool
verify_crc frame = compute_crc32 (header_bytes frame.header ++ frame.payload) == frame.crc

-- The fields of a frame that is long enough.
unfoldable pub parse_fields : List ℕ → Result ReadFault Frame
parse_fields bits = do
  frame_length ← extract_bits bits 0 16
  padding_bits ← extract_bits bits 16 4
  fec ← extract_bits bits 20 1
  rate_val ← extract_bits bits 21 2
  sequence_number ← extract_bits bits 23 12
  let payload_bit_count = length bits - 35 - 32
  (payload, rest) ← payload_loop (payload_bit_count / 8) (drop 35 bits)
  crc ← extract_bits rest (payload_bit_count % 8) 32
  ok (record {
    header = record {
      payload_length = frame_length;
      padding_bits = padding_bits;
      sequence_number = sequence_number;
      fec_enabled = if fec == 0 then false else true;
      fec_code_rate = rate_val;
    };
    payload = payload;
    crc = crc;
    crc_valid = false;
  })

unfoldable pub parse_unchecked : List ℕ → Result ReadFault (Option Frame)
parse_unchecked bits =
    if ltb (length bits) (35 + 32) then ok none else (do frame ← parse_fields bits; ok (some frame))

unfoldable pub checked : Frame → Option Frame
checked frame = if verify_crc frame then some (record frame { crc_valid = true }) else none

unfoldable pub parse : List ℕ → Result ReadFault (Option Frame)
parse bits =
    if ltb (length bits) (35 + 32)
    then ok none
    else (do frame ← parse_fields bits; ok (checked frame))
