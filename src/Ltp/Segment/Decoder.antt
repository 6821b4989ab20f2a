-- ===== src/Ltp/Segment/Decoder.antt =====
-- src/ltp_cla/ltp_segment.cpp: `LtpSegment::decode` and its helpers. A cursor holds `offset` and what
-- lies between `offset` and `length`. `std::nullopt` is `err malformed`; what leaves `decode`
-- otherwise is a fault.
use qpsk_b.Base.{
  ℕ, zero, suc, ◌+◌, ◌-◌, ◌^◌, ◌||◌, not, Option, none, some, List, [], ◌∷◌, ◌==◌, ltb, leb,
  if◌then◌else◌, length, take, drop,
}
use qpsk_b.Base.Bits.{shr, low_bits, add64}
use qpsk_b.Base.Result.{Result, ok, err, ◌>>=◌, map_err}
use qpsk_b.Ltp.Sdnv.{Cursor, decode as sdnv_decode}
use qpsk_b.Ltp.SegType.{
  is_valid, is_data, has_checkpoint, report_segment, report_ack, cancel_by_sender,
  cancel_by_receiver, cancel_ack_to_sender, cancel_ack_to_receiver,
}
use qpsk_b.Ltp.Segment.{
  LtpExtension, ReceptionClaim, DataSegContent, ReportSegContent, SegmentContent, data_seg,
  report_seg, rpt_ack, cancel, LtpSegment, Fault, out_of_bounds, length_error,
}

pub data Reject : Type 0 where
  malformed : Reject
  fault : Fault → Reject

abbrev pub Read : Type 0 → Type 0
Read A = Result Reject (A × Cursor)

-- `sdnv::decode`, whose exception every caller turns into `std::nullopt`.
unfoldable pub read_sdnv : Cursor → Read ℕ
read_sdnv c = map_err (λ _. malformed) (sdnv_decode c)

-- `if (offset >= length) …; data[offset++]`.
unfoldable pub read_byte_from : ℕ → List ℕ → Read ℕ
read_byte_from offset [] = err malformed
read_byte_from offset (b ∷ rest) = ok (b, record { offset = offset + 1; rest = rest })

unfoldable pub read_byte : Cursor → Read ℕ
read_byte c = read_byte_from c.offset c.rest

-- `if (offset + n > length) …; assign(data + offset, data + offset + n); offset += n`. The sum is a
-- 64-bit sum, and a copy of more bytes than there are reads outside the buffer.
unfoldable pub read_block : ℕ → Cursor → Read (List ℕ)
read_block n c =
    if ltb (c.offset + length c.rest) (add64 c.offset n)
    then err malformed
    else if leb n (length c.rest)
    then ok (take n c.rest, record { offset = c.offset + n; rest = drop n c.rest })
    else err (fault out_of_bounds)

unfoldable pub read_extension : Cursor → Read LtpExtension
read_extension c = do
  (tag, c) ← read_byte c
  (val_len, c) ← read_sdnv c
  (value, c) ← read_block val_len c
  ok (record { tag = tag; value = value }, c)

unfoldable pub decode_extensions : ℕ → Cursor → Read (List LtpExtension)
decode_extensions zero c = ok ([], c)
decode_extensions (suc count) c = do
  (ext, c) ← read_extension c
  (exts, c) ← decode_extensions count c
  ok (ext ∷ exts, c)

-- `checkpoint_serial` and `report_serial`, which only a checkpoint has.
unfoldable pub read_serials : ℕ → Cursor → Read (Option ℕ × Option ℕ)
read_serials segment_type c =
    if has_checkpoint segment_type
    then (do
      (checkpoint_serial, c) ← read_sdnv c
      (report_serial, c) ← read_sdnv c
      ok ((some checkpoint_serial, some report_serial), c))
    else ok ((none, none), c)

unfoldable pub read_data : ℕ → Cursor → Read DataSegContent
read_data segment_type c = do
  (client_service_id, c) ← read_sdnv c
  (offset, c) ← read_sdnv c
  (len, c) ← read_sdnv c
  (serials, c) ← read_serials segment_type c
  (bytes, c) ← read_block len c
  ok (
    record {
      client_service_id = client_service_id;
      offset = offset;
      length = len;
      checkpoint_serial = serials.0;
      report_serial = serials.1;
      bytes = bytes;
    },
    c,
  )

unfoldable pub read_claims : ℕ → Cursor → Read (List ReceptionClaim)
read_claims zero c = ok ([], c)
read_claims (suc count) c = do
  (offset, c) ← read_sdnv c
  (len, c) ← read_sdnv c
  (claims, c) ← read_claims count c
  ok (record { offset = offset; length = len } ∷ claims, c)

-- `vector<ReceptionClaim>::max_size()`: 2^63 - 1 bytes in elements of 16.
abbrev pub max_claims : ℕ
max_claims = 2 ^ 59 - 1

-- `reserve` throws a `std::length_error` above `max_size()`, and the handler is for
-- `std::runtime_error` alone. Below it the allocation is taken to succeed.
unfoldable pub reserve_claims : ℕ → Cursor → Read (List ReceptionClaim)
reserve_claims count c =
    let claims = read_claims count c in
    if ltb max_claims count then err (fault length_error) else claims

unfoldable pub read_report : Cursor → Read ReportSegContent
read_report c = do
  (report_serial, c) ← read_sdnv c
  (checkpoint_serial, c) ← read_sdnv c
  (upper_bound, c) ← read_sdnv c
  (lower_bound, c) ← read_sdnv c
  (claim_count, c) ← read_sdnv c
  (claims, c) ← reserve_claims claim_count c
  ok (
    record {
      report_serial = report_serial;
      checkpoint_serial = checkpoint_serial;
      upper_bound = upper_bound;
      lower_bound = lower_bound;
      claims = claims;
    },
    c,
  )

unfoldable pub decode_content : ℕ → Cursor → Read SegmentContent
decode_content t c =
    if is_data t
    then (do (ds, c) ← read_data t c; ok (data_seg ds, c))
    else if t == report_segment
    then (do (rs, c) ← read_report c; ok (report_seg rs, c))
    else if t == report_ack
    then (do (serial, c) ← read_sdnv c; ok (rpt_ack (record { report_serial = serial }), c))
    else if t == cancel_by_sender || t == cancel_by_receiver
    then (do (reason, c) ← read_byte c; ok (cancel (record { reason_code = reason }), c))
    else if t == cancel_ack_to_sender || t == cancel_ack_to_receiver
    then ok (cancel (record { reason_code = 0 }), c)
    else err malformed

-- The two extension counts; `offset + 2 > length` is tested before both are read.
unfoldable pub read_counts : Cursor → Read (ℕ × ℕ)
read_counts c = if ltb (c.offset + length c.rest) (add64 c.offset 2) then err malformed else (do
  (header_ext_count, c) ← read_byte c
  (trailer_ext_count, c) ← read_byte c
  ok ((header_ext_count, trailer_ext_count), c))

-- All that follows the control byte.
unfoldable pub decode_body : ℕ → ℕ → Cursor → Result Reject LtpSegment
decode_body version segment_type c = do
  (engine_id, c) ← read_sdnv c
  (session_number, c) ← read_sdnv c
  (counts, c) ← read_counts c
  (header_extensions, c) ← decode_extensions counts.0 c
  (content, c) ← decode_content segment_type c
  (trailer_extensions, c) ← decode_extensions counts.1 c
  ok (record {
    version = version;
    segment_type = segment_type;
    engine_id = engine_id;
    session_number = session_number;
    header_ext_count = counts.0;
    trailer_ext_count = counts.1;
    header_extensions = header_extensions;
    trailer_extensions = trailer_extensions;
    content = content;
  })

unfoldable pub decode : List ℕ → Result Reject LtpSegment
decode [] = err malformed
decode (control ∷ rest) =
    let version = low_bits (shr control 4) 4 in
    let segment_type = low_bits control 4 in
    if not (version == 0)
    then err malformed
    else if not (is_valid segment_type)
    then err malformed
    else decode_body version segment_type (record { offset = 1; rest = rest })
