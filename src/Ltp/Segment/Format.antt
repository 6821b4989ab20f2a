-- ===== src/Ltp/Segment/Format.antt =====
-- `encode` writes the wire format of a well-formed segment.
use qpsk_b.Base.{
  ℕ, ◌*◌, ◌%◌, ◌<◌, ◌≡◌, refl, ap, sym, ◌∙◌, Bool, true, false, Option, none, some, List, [], ◌∷◌,
  ◌++◌, append_assoc, append-nil, inl, inr, if◌then◌else◌, length, All, bit_or, arith,
}
use qpsk_b.Base.Bits.{IsU64, low_bits, bit_or_disjoint}
use qpsk_b.Base.Result.{ok}
use qpsk_b.Ltp.Sdnv.Encode.{encoding, encode_into_lem}
use qpsk_b.Ltp.SegType.{is_valid, has_checkpoint}
use qpsk_b.Ltp.Segment.{
  LtpExtension, ReceptionClaim, DataSegContent, ReportSegContent, SegmentContent, data_seg,
  report_seg, rpt_ack, cancel, LtpSegment,
}
use qpsk_b.Ltp.Segment.Encoder.{
  append_sdnv, encode_extensions, value_or, encode_claims, encode_data, encode_report,
  encode_content, encode_header, encode,
}
use qpsk_b.Ltp.Segment.Bytes.{
  extension_bytes, claim_bytes, content_bytes, IsExtension, IsClaim, HasSerials, FitsType,
  IsWellFormed, segment_bytes,
}

append_sdnv_lem : (out : List ℕ) (v : ℕ) → IsU64 v → append_sdnv out v ≡ out ++ encoding v
unfolding append_sdnv
append_sdnv_lem out v h = encode_into_lem v out h

encode_extensions-bytes :
    (exts : List LtpExtension) (out : List ℕ)
    → All IsExtension exts
    → encode_extensions out exts ≡ out ++ extension_bytes exts
unfolding encode_extensions
encode_extensions-bytes [] out h = sym (append-nil out)
encode_extensions-bytes (ext ∷ exts) out h =
    let wide : IsU64 (length ext.value) = omega arith in
    encode_extensions-bytes exts _ h.1
    ∙ simp (append_sdnv_lem (out ++ ext.tag ∷ []) (length ext.value) wide, append_assoc)

encode_claims-bytes :
    (claims : List ReceptionClaim) (out : List ℕ)
    → All IsClaim claims
    → encode_claims out claims ≡ out ++ claim_bytes claims
unfolding encode_claims
encode_claims-bytes [] out h = sym (append-nil out)
encode_claims-bytes (c ∷ cs) out h =
    encode_claims-bytes cs _ h.1
    ∙ rw
        (
          append_sdnv_lem out c.offset h.0.0,
          append_sdnv_lem (out ++ encoding c.offset) c.length h.0.1,
        )
        (simp append_assoc)

encode_report-bytes :
    (rs : ReportSegContent) (out rest : List ℕ)
    → FitsType 6 (report_seg rs)
    → encode_report out rs ++ rest ≡ out ++ content_bytes 6 (report_seg rs) rest
unfolding encode_report
encode_report-bytes rs out rest (_, h1, h2, h3, h4, h5, h6) =
    let wide : IsU64 (length rs.claims) = omega arith in
    rw (encode_claims-bytes rs.claims _ h6) (
      simp (
        append_sdnv_lem out rs.report_serial h1,
        append_sdnv_lem (out ++ encoding rs.report_serial) rs.checkpoint_serial h2,
        append_sdnv_lem _ rs.upper_bound h3,
        append_sdnv_lem _ rs.lower_bound h4,
        append_sdnv_lem _ (length rs.claims) wide,
        append_assoc,
      ))

serials-bytes :
    (b : Bool) (cp rp : Option ℕ) (fixed rest : List ℕ)
    → HasSerials b cp rp
    → (if b then append_sdnv (append_sdnv fixed (value_or cp 0)) (value_or rp 0) else fixed) ++ rest
      ≡ fixed
        ++ (if b then encoding (value_or cp 0) ++ (encoding (value_or rp 0) ++ rest) else rest)
serials-bytes true (some cp) (some rp) fixed rest h =
    simp (append_sdnv_lem fixed cp h.0, append_sdnv_lem (fixed ++ encoding cp) rp h.1, append_assoc)
serials-bytes true (some cp) none fixed rest h = absurd h
serials-bytes true none rp fixed rest h = absurd h
serials-bytes false none none fixed rest h = refl
serials-bytes false none (some rp) fixed rest h = absurd h
serials-bytes false (some cp) rp fixed rest h = absurd h

encode_data-bytes :
    (t : ℕ) (ds : DataSegContent) (out rest : List ℕ)
    → FitsType t (data_seg ds)
    → encode_data out t ds ++ rest ≡ out ++ content_bytes t (data_seg ds) rest
unfolding encode_data
encode_data-bytes t ds out rest (_, h1, h2, h3, h4, h5) =
    let wide : IsU64 ds.length = omega arith in
    simp append_assoc (
      serials-bytes (has_checkpoint t) ds.checkpoint_serial ds.report_serial _ (ds.bytes ++ rest) h5
      ∙ simp (
        append_sdnv_lem out ds.client_service_id h1,
        append_sdnv_lem _ ds.offset h2,
        append_sdnv_lem _ ds.length wide,
        append_assoc,
      ))

encode_content-bytes :
    (t : ℕ) (content : SegmentContent) (out rest : List ℕ)
    → FitsType t content
    → (r : List ℕ) × (encode_content out t content ≡ ok r)
      × (r ++ rest ≡ out ++ content_bytes t content rest)
unfolding encode_content
encode_content-bytes t (data_seg ds) out rest h =
    (encode_data out t ds, ground arith, encode_data-bytes t ds out rest h)
encode_content-bytes t (report_seg rs) out rest h = (
  encode_report out rs,
  ground arith,
  encode_report-bytes rs out rest (omega arith, h.1, h.2, h.3, h.4, h.5, h.6),
)
encode_content-bytes t (rpt_ack ra) out rest h = (
  append_sdnv out ra.report_serial,
  ground arith,
  rw (append_sdnv_lem out ra.report_serial h.1) (append_assoc out (encoding ra.report_serial) rest),
)
encode_content-bytes t (cancel cc) out rest (inl h) = (
  out ++ cc.reason_code ∷ [],
  ground arith,
  ground (arith, append_assoc out (cc.reason_code ∷ []) rest),
)
encode_content-bytes t (cancel cc) out rest (inr h) = (out, ground arith, ground arith)

encode_header-bytes :
    (seg : LtpSegment) (rest : List ℕ)
    → IsWellFormed seg
    → seg.segment_type < 16
    → encode_header seg ++ rest
      ≡ seg.segment_type ∷ encoding seg.engine_id
        ++ (encoding seg.session_number
            ++ (seg.header_ext_count ∷ seg.trailer_ext_count ∷ extension_bytes seg.header_extensions
                ++ rest))
unfolding encode_header
encode_header-bytes seg rest w h =
    let control : bit_or (seg.version * 16) (low_bits seg.segment_type 4) % 256 ≡ seg.segment_type =
      rw w.version
        (omega (arith, bit_or_disjoint 4 0 (low_bits seg.segment_type 4) (omega arith))) in
    rw (control, encode_extensions-bytes seg.header_extensions _ w.header)
      (simp (
        append_sdnv_lem (seg.segment_type ∷ []) seg.engine_id w.engine_id,
        append_sdnv_lem _ seg.session_number w.session_number,
        append_assoc,
      ))

-- A type that has a content is one of the twelve codes.
pub FitsType-is_valid : (t : ℕ) (content : SegmentContent) → FitsType t content → is_valid t ≡ true
FitsType-is_valid t (data_seg ds) h = ground arith
FitsType-is_valid t (report_seg rs) h = ground arith
FitsType-is_valid t (rpt_ack ra) h = ground arith
FitsType-is_valid t (cancel cc) h = ground arith

pub is_valid-lt : (t : ℕ) → is_valid t ≡ true → t < 16
is_valid-lt t h = ground arith

-- `encode` does not throw on a well-formed segment, and writes its wire format.
pub encode-bytes : (seg : LtpSegment) → IsWellFormed seg → encode seg ≡ ok (segment_bytes seg)
unfolding encode
encode-bytes seg w =
    let small : seg.segment_type < 16 =
      is_valid-lt _ (FitsType-is_valid seg.segment_type seg.content w.content) in
    let trailer = extension_bytes seg.trailer_extensions in
    let (r, e, f) =
      encode_content-bytes seg.segment_type seg.content (encode_header seg) trailer w.content in
    rw (e, encode_extensions-bytes seg.trailer_extensions r w.trailer)
      (ap ok
        (f ∙ encode_header-bytes seg (content_bytes seg.segment_type seg.content trailer) w small))
