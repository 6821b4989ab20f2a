-- ===== src/Ltp/Segment/RoundTrip.antt =====
-- `decode` reads back what `encode` wrote.
use qpsk_b.Base.{ℕ, ◌+◌, ◌^◌, ◌<◌, ◌≡◌, ap, sym, true, List, [], append-nil, length, drop, arith}
use qpsk_b.Base.Bits.{low_bits, shr}
use qpsk_b.Base.Result.{ok}
use qpsk_b.Ltp.SegType.{is_valid}
use qpsk_b.Ltp.Segment.{LtpSegment}
use qpsk_b.Ltp.Segment.Encoder.{encode}
use qpsk_b.Ltp.Segment.Decoder.{decode_body, decode}
use qpsk_b.Ltp.Segment.Bytes.{extension_bytes, IsWellFormed, segment_bytes}
use qpsk_b.Ltp.Segment.Reads.{at, sdnv-Reads, counts-Reads, counted-Reads, content-Reads}
use qpsk_b.Ltp.Segment.Format.{FitsType-is_valid, is_valid-lt, encode-bytes}

module _ (n : ℕ) (small : n < 2 ^ 63) where
  body-Returns :
      (seg : LtpSegment) (o : ℕ)
      → IsWellFormed seg
      → o + length (drop 1 (segment_bytes seg)) ≡ n
      → decode_body 0 seg.segment_type (at o (drop 1 (segment_bytes seg))) ≡ ok seg
  unfolding decode_body
  body-Returns seg o w l =
      let trailer = extension_bytes seg.trailer_extensions in
      let (o1, e1, l1) = sdnv-Reads n small seg.engine_id o _ w.engine_id l in
      let (o2, e2, l2) = sdnv-Reads n small seg.session_number o1 _ w.session_number l1 in
      let (o3, e3, l3) = counts-Reads n small seg.header_ext_count seg.trailer_ext_count o2 _ l2 in
      let (o4, e4, l4) =
        counted-Reads n small seg.header_ext_count seg.header_extensions o3 _ w.header_count
          w.header l3 in
      let (o5, e5, l5) =
        content-Reads n small seg.segment_type seg.content o4 trailer w.content l4 in
      let (o6, e6, l6) =
        counted-Reads n small seg.trailer_ext_count seg.trailer_extensions o5 [] w.trailer_count
          w.trailer (rw append-nil l5) in
      let e6' = rw append-nil at e6 in
      rw (e1, e2, e3, e4, e5, e6') (ap (λ v. ok (record seg { version = v })) (sym w.version))

decode-segment_bytes :
    (seg : LtpSegment)
    → IsWellFormed seg
    → length (segment_bytes seg) < 2 ^ 63
    → decode (segment_bytes seg) ≡ ok seg
unfolding decode
decode-segment_bytes seg w small =
    let valid : is_valid seg.segment_type ≡ true =
      FitsType-is_valid seg.segment_type seg.content w.content in
    let type_lt : seg.segment_type < 16 = is_valid-lt _ valid in
    let version : low_bits (shr seg.segment_type 4) 4 ≡ 0 = omega arith in
    let code : low_bits seg.segment_type 4 ≡ seg.segment_type = omega arith in
    rw (version, code, valid)
      (body-Returns (length (segment_bytes seg)) small seg 1 w (omega arith))

-- Round trip: a well-formed segment whose encoding is shorter than 2^63 bytes is encoded without a
-- fault, and `decode` returns the same segment from those bytes.
pub decode-encode :
    (seg : LtpSegment)
    → IsWellFormed seg
    → length (segment_bytes seg) < 2 ^ 63
    → (out : List ℕ) × (encode seg ≡ ok out) × (decode out ≡ ok seg)
decode-encode seg w small =
    (segment_bytes seg, encode-bytes seg w, decode-segment_bytes seg w small)
