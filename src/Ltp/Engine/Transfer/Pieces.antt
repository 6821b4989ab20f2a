-- ===== src/Ltp/Engine/Transfer/Pieces.antt =====
-- Consecutive chunks of a block as pieces of it.
use qpsk_b.Base.{
  ℕ, ◌+◌, ◌≤◌, ◌<◌, ◌≡◌, refl, ap, sym, ◌∙◌, true, List, [], ◌∷◌, inl, inr, Bool-cases, arith,
  length, take, drop, All,
}
use qpsk_b.Ltp.Segment.{DataSegContent, LtpSegment}
use qpsk_b.Ltp.Session.{LtpSession, key}
use qpsk_b.Ltp.Tracker.Coverage.{between}
use qpsk_b.Ltp.Engine.Originate.Chunks.{IsChunk, AreChunks, EndsAlone}
use qpsk_b.Ltp.Engine.Reassembly.{CarriesPiece, Carries, touches, any_touches, any_ends}
use qpsk_b.Ltp.Engine.Reassembly.Taken.{IsRedFor}

piece-Carries :
    (s : LtpSession) (max_seg offset : ℕ) (seg : LtpSegment) (ds : DataSegContent)
    → IsChunk s max_seg offset seg ds
    → CarriesPiece s.client_data seg ds
piece-Carries s max_seg offset seg ds p =
    let at = p.begins in
    let inside = p.inside in
    let ends = p.ends in
    (
      p.bytes ∙ ap (λ o. take ds.length (drop o s.client_data)) (sym at),
      omega arith,
      λ e. ground arith,
    )

pub AreChunks-Carries :
    (s : LtpSession) (max_seg offset : ℕ) (segs : List LtpSegment)
    → AreChunks s max_seg offset segs
    → All (Carries s.client_data) segs
AreChunks-Carries s max_seg offset [] c = tt
AreChunks-Carries s max_seg offset (seg ∷ segs) c =
    let (ds, p, rest) = c in
    (
      (ds, p.content, piece-Carries s max_seg offset seg ds p),
      AreChunks-Carries s max_seg (offset + ds.length) segs rest,
    )

touches-chunk :
    (s : LtpSession) (max_seg offset : ℕ) (seg : LtpSegment) (ds : DataSegContent) (i : ℕ)
    → IsChunk s max_seg offset seg ds
    → touches seg i ≡ between offset (offset + ds.length) i
touches-chunk s max_seg offset seg ds i p = rw p.content (rw p.begins refl)

pub AreChunks-touches :
    (s : LtpSession) (max_seg offset : ℕ) (segs : List LtpSegment) (i : ℕ)
    → AreChunks s max_seg offset segs
    → offset ≤ i
    → i < length s.client_data
    → any_touches segs i ≡ true
AreChunks-touches s max_seg offset [] i c l h = absurd (omega arith)
AreChunks-touches s max_seg offset (seg ∷ segs) i c l h =
    let (ds, p, rest) = c in
    let here = touches-chunk s max_seg offset seg ds i p in
    elim (Bool-cases (between offset (offset + ds.length) i)) [
      | inl q ↦ rw (here, q) refl
      | inr q ↦
          rw (here, q)
            (AreChunks-touches s max_seg (offset + ds.length) segs i rest (ground arith) h)
    ]

pub EndsAlone-ends : (segs : List LtpSegment) → EndsAlone segs → any_ends segs ≡ true
EndsAlone-ends [] e = absurd e
EndsAlone-ends (seg ∷ []) e = rw e refl
EndsAlone-ends (seg ∷ seg' ∷ segs) e = let r = EndsAlone-ends (seg' ∷ segs) e.1 in ground arith

-- The chunks of a red block are red segments of its session.
pub AreChunks-IsRedFor :
    (s : LtpSession) (max_seg offset : ℕ) (segs : List LtpSegment)
    → s.is_red ≡ true
    → AreChunks s max_seg offset segs
    → All (IsRedFor (key s.engine_id s.session_number)) segs
AreChunks-IsRedFor s max_seg offset [] red c = tt
AreChunks-IsRedFor s max_seg offset (seg ∷ segs) red c =
    let (ds, p, rest) = c in
    (
      (p.colour ∙ red, rw (p.engine_id, p.session_number) refl),
      AreChunks-IsRedFor s max_seg (offset + ds.length) segs red rest,
    )
