-- ===== src/Ltp/Segment.antt =====
-- include/ltp_cla/ltp_segment.h: the segment and its contents. The codec is in the children.
pub mod Encoder
pub mod Decoder
pub mod Bytes
pub mod Format
pub mod Reads
pub mod RoundTrip
use qpsk_b.Base.{ℕ, List, Option}
use qpsk_b.Base.Result.{Result, ok, err}

pub record LtpExtension : Type 0 where
  pub tag : ℕ
  pub value : List ℕ

pub record ReceptionClaim : Type 0 where
  pub offset : ℕ
  pub length : ℕ

pub record DataSegContent : Type 0 where
  pub client_service_id : ℕ
  pub offset : ℕ
  pub length : ℕ
  pub checkpoint_serial : Option ℕ
  pub report_serial : Option ℕ
  pub bytes : List ℕ

pub record ReportSegContent : Type 0 where
  pub report_serial : ℕ
  pub checkpoint_serial : ℕ
  pub upper_bound : ℕ
  pub lower_bound : ℕ
  pub claims : List ReceptionClaim

pub record RptAckContent : Type 0 where
  pub report_serial : ℕ

pub record CancelContent : Type 0 where
  pub reason_code : ℕ

-- The `std::variant`.
pub data SegmentContent : Type 0 where
  data_seg : DataSegContent → SegmentContent
  report_seg : ReportSegContent → SegmentContent
  rpt_ack : RptAckContent → SegmentContent
  cancel : CancelContent → SegmentContent

pub record LtpSegment : Type 0 where
  pub version : ℕ
  pub segment_type : ℕ
  pub engine_id : ℕ
  pub session_number : ℕ
  pub header_ext_count : ℕ
  pub trailer_ext_count : ℕ
  pub header_extensions : List LtpExtension
  pub trailer_extensions : List LtpExtension
  pub content : SegmentContent

-- What ends a call otherwise than by a return: an access outside a buffer (undefined behaviour),
-- a `std::length_error`, a `std::bad_variant_access`, a loop that does not end.
pub data Fault : Type 0 where
  out_of_bounds length_error bad_variant endless : Fault

-- `std::get<T>(content)`.
abbrev pub get_data : SegmentContent → Result Fault DataSegContent
get_data (data_seg d) = ok d
get_data _ = err bad_variant

abbrev pub get_report : SegmentContent → Result Fault ReportSegContent
get_report (report_seg r) = ok r
get_report _ = err bad_variant

abbrev pub get_rpt_ack : SegmentContent → Result Fault RptAckContent
get_rpt_ack (rpt_ack a) = ok a
get_rpt_ack _ = err bad_variant

abbrev pub get_cancel : SegmentContent → Result Fault CancelContent
get_cancel (cancel c) = ok c
get_cancel _ = err bad_variant
