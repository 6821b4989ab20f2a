-- ===== src/Ltp/Engine/Reassembly.antt =====
-- What a receiver session holds of a block, whatever segments of the block arrive and in what order.
pub mod Buffer
pub mod Reporting
pub mod Absorbed
pub mod Taken
pub mod Acknowledged
pub mod Delivery
use qpsk_b.Base.{
  ℕ, zero, suc, ◌+◌, ◌-◌, ◌^◌, ◌≤◌, ◌<◌, max, ◌≡◌, ◌≢◌, refl, sym, ap, ◌∙◌, Bool, true, false, ◌||◌,
  Option, List, [], ◌∷◌, ◌++◌, ◌⊎◌, inl, inr, Bool-cases, All, leb, ltb, ◌==◌, if◌then◌else◌, arith,
  length, get_elem?, take, drop, replicate, min, length-append, length-take, length-drop,
  length-replicate,
}
use qpsk_b.Base.Elements.{
  get_elem?-append_left, get_elem?-append_right, get_elem?-take, get_elem?-drop,
  get_elem?-injective, take_all, drop_all,
}
use qpsk_b.Base.Result.{Result, ok, err, ◌>>=◌}
use qpsk_b.Base.Bits.{add64}
use qpsk_b.Ltp.Engine.State.{slice}
use qpsk_b.Ltp.Engine.Receive.{deliver, receiver_session}
use qpsk_b.Ltp.Tracker.{is_complete}
use qpsk_b.Ltp.Tracker.Coverage.{is_complete_iff}
use qpsk_b.Ltp.Segment.{LtpSegment, Fault, DataSegContent, data_seg, get_data}
use qpsk_b.Ltp.SegType.{has_eob}
use qpsk_b.Ltp.Session.{LtpSession}
use qpsk_b.Ltp.Tracker.{add_range}
use qpsk_b.Ltp.Tracker.Invariant.{IsValid, add_range-IsValid}
use qpsk_b.Ltp.Tracker.Coverage.{covers, between, covers-add_range}
use qpsk_b.Ltp.Engine.Receive.{grow, copy_at, store_data, absorb}

-- The data of the segment is that of the block at the segment's offset, and the segment that ends the
-- block ends where the block does.
abbrev pub CarriesPiece : List ℕ → LtpSegment → DataSegContent → Type 0
CarriesPiece block seg ds =
    (ds.bytes ≡ take ds.length (drop ds.offset block))
    × (ds.offset + ds.length ≤ length block)
    × (has_eob seg.segment_type ≡ true → ds.offset + ds.length ≡ length block)

-- A segment with such data.
abbrev pub Carries : List ℕ → LtpSegment → Type 0
Carries block seg = (ds : DataSegContent) × (seg.content ≡ data_seg ds) × CarriesPiece block seg ds

-- What the session has received is a part of the block, in its place.
pub record IsPartOf (block : List ℕ) (s : LtpSession) : Type 0 where
  pub valid : IsValid s.reception_tracker
  pub held : (i : ℕ) → covers s.reception_tracker i ≡ true → i < length s.client_data
  pub agrees :
      (i : ℕ) → covers s.reception_tracker i ≡ true → get_elem? s.client_data i ≡ get_elem? block i
  pub short : length s.client_data ≤ length block
  pub total : (s.total_data_length ≡ 0) ⊎ (s.total_data_length ≡ length block)

-- The session with this buffer after the segment.
abbrev pub absorbed : LtpSegment → DataSegContent → LtpSession → List ℕ → LtpSession
absorbed seg ds s buffer = record s {
  client_data = buffer;
  reception_tracker = add_range ds.offset ds.length s.reception_tracker;
  total_data_length =
      if has_eob seg.segment_type then add64 ds.offset ds.length else s.total_data_length;
}

-- Byte `i` is in the data of a segment.
abbrev pub touches : LtpSegment → ℕ → Bool
touches seg i = elim (get_data seg.content) [
  | ok ds ↦ between ds.offset (ds.offset + ds.length) i
  | err x ↦ false
]

abbrev pub any_touches : List LtpSegment → ℕ → Bool
any_touches [] i = false
any_touches (seg ∷ segs) i = touches seg i || any_touches segs i

-- A segment ends the block.
abbrev pub any_ends : List LtpSegment → Bool
any_ends [] = false
any_ends (seg ∷ segs) = has_eob seg.segment_type || any_ends segs
