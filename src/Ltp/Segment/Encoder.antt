-- ===== src/Ltp/Segment/Encoder.antt =====
-- src/ltp_cla/ltp_segment.cpp: `LtpSegment::encode` and its helpers. `out` is the vector so far.
use qpsk_b.Base.{
  ℕ, ◌*◌, ◌%◌, ◌||◌, Option, none, some, List, [], ◌∷◌, ◌++◌, ◌==◌, if◌then◌else◌, length, bit_or,
}
use qpsk_b.Base.Bits.{low_bits}
use qpsk_b.Base.Result.{Result, ok, ◌>>=◌}
use qpsk_b.Ltp.Sdnv.{encode_into}
use qpsk_b.Ltp.SegType.{
  is_data, has_checkpoint, report_segment, report_ack, cancel_by_sender, cancel_by_receiver,
}
use qpsk_b.Ltp.Segment.{
  LtpExtension, ReceptionClaim, DataSegContent, ReportSegContent, SegmentContent, LtpSegment, Fault,
  get_data, get_report, get_rpt_ack, get_cancel,
}

unfoldable pub append_sdnv : List ℕ → ℕ → List ℕ
append_sdnv out value = encode_into value out

unfoldable pub encode_extensions : List ℕ → List LtpExtension → List ℕ
encode_extensions out [] = out
encode_extensions out (ext ∷ exts) =
    encode_extensions (append_sdnv (out ++ ext.tag ∷ []) (length ext.value) ++ ext.value) exts

abbrev pub value_or : Option ℕ → ℕ → ℕ
value_or none d = d
value_or (some v) d = v

-- The loop over `rs.claims`.
unfoldable pub encode_claims : List ℕ → List ReceptionClaim → List ℕ
encode_claims out [] = out
encode_claims out (claim ∷ claims) =
    encode_claims (append_sdnv (append_sdnv out claim.offset) claim.length) claims

unfoldable pub encode_data : List ℕ → ℕ → DataSegContent → List ℕ
encode_data out segment_type ds =
    let fixed =
      append_sdnv (append_sdnv (append_sdnv out ds.client_service_id) ds.offset) ds.length in
    let serials =
      append_sdnv (append_sdnv fixed (value_or ds.checkpoint_serial 0))
        (value_or ds.report_serial 0) in
    (if has_checkpoint segment_type then serials else fixed) ++ ds.bytes

unfoldable pub encode_report : List ℕ → ReportSegContent → List ℕ
encode_report out rs =
    let serials = append_sdnv (append_sdnv out rs.report_serial) rs.checkpoint_serial in
    let bounds = append_sdnv (append_sdnv serials rs.upper_bound) rs.lower_bound in
    encode_claims (append_sdnv bounds (length rs.claims)) rs.claims

-- The type-dependent part; the segments of types 9 and 13 have none.
unfoldable pub encode_content : List ℕ → ℕ → SegmentContent → Result Fault (List ℕ)
encode_content out t content =
    if is_data t
    then (do ds ← get_data content; ok (encode_data out t ds))
    else if t == report_segment
    then (do rs ← get_report content; ok (encode_report out rs))
    else if t == report_ack
    then (do ra ← get_rpt_ack content; ok (append_sdnv out ra.report_serial))
    else if t == cancel_by_sender || t == cancel_by_receiver
    then (do cc ← get_cancel content; ok (out ++ cc.reason_code ∷ []))
    else ok out

-- The control byte, the session, the two counts and the header extensions.
unfoldable pub encode_header : LtpSegment → List ℕ
encode_header seg =
    let control = bit_or (seg.version * 16) (low_bits seg.segment_type 4) % 256 in
    let session = append_sdnv (append_sdnv (control ∷ []) seg.engine_id) seg.session_number in
    encode_extensions (session ++ seg.header_ext_count ∷ seg.trailer_ext_count ∷ [])
      seg.header_extensions

unfoldable pub encode : LtpSegment → Result Fault (List ℕ)
encode seg = do
  out ← encode_content (encode_header seg) seg.segment_type seg.content
  ok (encode_extensions out seg.trailer_extensions)
