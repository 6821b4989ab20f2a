-- ===== src/Ltp/Segment/Bytes.antt =====
-- The wire format of a segment, as one expression, and which segments it is for.
use qpsk_b.Base.{
  ℕ, ◌^◌, ◌≤◌, ◌<◌, ◌≡◌, Bool, true, false, ◌||◌, Option, none, some, List, [], ◌∷◌, ◌++◌, ◌⊎◌,
  ◌==◌, if◌then◌else◌, length, All,
}
use qpsk_b.Base.Bits.{IsU64}
use qpsk_b.Ltp.Sdnv.Encode.{encoding}
use qpsk_b.Ltp.SegType.{has_checkpoint, cancel_by_sender, cancel_by_receiver}
use qpsk_b.Ltp.Segment.{
  LtpExtension, ReceptionClaim, DataSegContent, SegmentContent, data_seg, report_seg, rpt_ack,
  cancel, LtpSegment,
}
use qpsk_b.Ltp.Segment.Encoder.{value_or}

abbrev pub extension_bytes : List LtpExtension → List ℕ
extension_bytes [] = []
extension_bytes (ext ∷ exts) =
    ext.tag ∷ encoding (length ext.value) ++ (ext.value ++ extension_bytes exts)

abbrev pub claim_bytes : List ReceptionClaim → List ℕ
claim_bytes [] = []
claim_bytes (c ∷ cs) = encoding c.offset ++ (encoding c.length ++ claim_bytes cs)

abbrev pub serial_bytes : ℕ → DataSegContent → List ℕ → List ℕ
serial_bytes t ds rest =
    if has_checkpoint t
    then encoding (value_or ds.checkpoint_serial 0)
      ++ (encoding (value_or ds.report_serial 0) ++ rest)
    else rest

-- The content of a segment of type `t`, with what follows it.
abbrev pub content_bytes : ℕ → SegmentContent → List ℕ → List ℕ
content_bytes t (data_seg ds) rest =
    encoding ds.client_service_id
    ++ (encoding ds.offset ++ (encoding ds.length ++ serial_bytes t ds (ds.bytes ++ rest)))
content_bytes t (report_seg rs) rest =
    encoding rs.report_serial
    ++ (encoding rs.checkpoint_serial
        ++ (encoding rs.upper_bound
            ++ (encoding rs.lower_bound
                ++ (encoding (length rs.claims) ++ (claim_bytes rs.claims ++ rest)))))
content_bytes t (rpt_ack ra) rest = encoding ra.report_serial ++ rest
content_bytes t (cancel cc) rest =
    if t == cancel_by_sender || t == cancel_by_receiver then cc.reason_code ∷ rest else rest

abbrev pub IsExtension : LtpExtension → Type 0
IsExtension ext = length ext.value < 2 ^ 63

abbrev pub IsClaim : ReceptionClaim → Type 0
IsClaim c = IsU64 c.offset × IsU64 c.length

-- A checkpoint carries both serials, any other data segment none.
abbrev pub HasSerials : Bool → Option ℕ → Option ℕ → Type 0
HasSerials true (some cp) (some rp) = IsU64 cp × IsU64 rp
HasSerials false none none = Unit
HasSerials _ _ _ = ⊥

-- The contents that a segment of type `t` can have: 64-bit fields, and the data that `length` says.
abbrev pub FitsType : ℕ → SegmentContent → Type 0
FitsType t (data_seg ds) =
    (t ≤ 5)
    × IsU64 ds.client_service_id
    × IsU64 ds.offset
    × (ds.length < 2 ^ 63)
    × (ds.length ≡ length ds.bytes)
    × HasSerials (has_checkpoint t) ds.checkpoint_serial ds.report_serial
FitsType t (report_seg rs) =
    (t ≡ 6)
    × IsU64 rs.report_serial
    × IsU64 rs.checkpoint_serial
    × IsU64 rs.upper_bound
    × IsU64 rs.lower_bound
    × (length rs.claims < 2 ^ 59)
    × All IsClaim rs.claims
FitsType t (rpt_ack ra) = (t ≡ 7) × IsU64 ra.report_serial
FitsType t (cancel cc) = ((t ≡ 8) ⊎ (t ≡ 12)) ⊎ (((t ≡ 9) ⊎ (t ≡ 13)) × (cc.reason_code ≡ 0))

-- What the fields of a segment must satisfy to be representable on the wire.
pub record IsWellFormed (seg : LtpSegment) : Type 0 where
  pub version : seg.version ≡ 0
  pub engine_id : IsU64 seg.engine_id
  pub session_number : IsU64 seg.session_number
  pub header_count : seg.header_ext_count ≡ length seg.header_extensions
  pub trailer_count : seg.trailer_ext_count ≡ length seg.trailer_extensions
  pub header : All IsExtension seg.header_extensions
  pub trailer : All IsExtension seg.trailer_extensions
  pub content : FitsType seg.segment_type seg.content

abbrev pub segment_bytes : LtpSegment → List ℕ
segment_bytes seg =
    seg.segment_type ∷ encoding seg.engine_id
    ++ (encoding seg.session_number
        ++ (seg.header_ext_count ∷ seg.trailer_ext_count ∷ extension_bytes seg.header_extensions
            ++ content_bytes seg.segment_type seg.content (extension_bytes seg.trailer_extensions)))
