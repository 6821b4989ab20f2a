-- ===== src/Ltp/Engine/Retransmission.antt =====
-- `retransmit_gaps`: the segments made for the gaps of a report.
use qpsk_b.Base.{
  ℕ, zero, suc, ◌+◌, ◌-◌, ◌≤◌, ◌<◌, ◌≡◌, refl, ap, ◌∙◌, ◌||◌, none, List, [], ◌∷◌, ◌++◌, inl, inr,
  Bool-cases, All, All-append, leb, arith, length, take, drop, min,
}
use qpsk_b.Base.Result.{ok, err}
use qpsk_b.Ltp.Segment.{ReceptionClaim, data_seg, LtpSegment, out_of_bounds}
use qpsk_b.Ltp.SegType.{red_data}
use qpsk_b.Ltp.Session.{LtpSession}
use qpsk_b.Ltp.Tracker.Coverage.{covers, between}
use qpsk_b.Ltp.Engine.State.{slice, segment}
use qpsk_b.Ltp.Engine.Originate.{data_content}
use qpsk_b.Ltp.Engine.Report.{gap_loop, gap_segments}
use qpsk_b.Ltp.Engine.Reassembly.{Carries, any_touches}

-- The gap lies in the block.
abbrev pub IsInside : LtpSession → ReceptionClaim → Type 0
IsInside s gap = gap.offset + gap.length ≤ length s.client_data

-- Segments with pieces of the block that are exactly the bytes from `offset` on, `len` of them.
pub record AreGap (s : LtpSession) (offset len : ℕ) (segs : List LtpSegment) : Type 0 where
  pub carries : All (Carries s.client_data) segs
  pub exact : (i : ℕ) → any_touches segs i ≡ between offset (offset + len) i

slice_inside :
    (offset len : ℕ) (bytes : List ℕ)
    → offset + len ≤ length bytes
    → slice offset len bytes ≡ ok (take len (drop offset bytes))
unfolding slice
slice_inside offset len bytes h = ground arith

slice_outside :
    (offset len : ℕ) (bytes : List ℕ)
    → length bytes < offset + len
    → slice offset len bytes ≡ err out_of_bounds
unfolding slice
slice_outside offset len bytes h = ground arith

between_split :
    (offset chunk len i : ℕ)
    → chunk ≤ len
    → (between offset (offset + chunk) i
        || between (offset + chunk) (offset + chunk + (len - chunk)) i)
      ≡ between offset (offset + len) i
between_split offset chunk len i h = ground arith

gap_segment : LtpSession → ℕ → ℕ → LtpSegment
gap_segment s offset chunk =
    segment red_data s.engine_id s.session_number
      (data_seg (data_content offset chunk none none (take chunk (drop offset s.client_data))))

gap_loop-AreGap :
    (fuel : ℕ) (s : LtpSession) (max_seg offset len : ℕ)
    → 0 < max_seg
    → len ≤ fuel
    → offset + len ≤ length s.client_data
    → (segs : List LtpSegment) × (gap_loop fuel s max_seg offset len ≡ ok segs)
      × AreGap s offset len segs
unfolding gap_loop gap_segment
gap_loop-AreGap fuel s max_seg offset zero m f h =
    ([], refl, record { carries = tt; exact = λ i. ground arith })
gap_loop-AreGap zero s max_seg offset (suc r) m f h = absurd (omega arith)
gap_loop-AreGap (suc fuel) s max_seg offset (suc r) m f h =
    let chunk = min max_seg (suc r) in
    let cut = slice_inside offset chunk s.client_data (omega arith) in
    let (segs, q, g) =
      gap_loop-AreGap fuel s max_seg (offset + chunk) (suc r - chunk) m (omega arith)
        (omega arith) in
    (
      gap_segment s offset chunk ∷ segs,
      rw (cut, q) refl,
      record {
        carries = (
          (
            data_content offset chunk none none (take chunk (drop offset s.client_data)),
            refl,
            (refl, omega arith, λ e. absurd (ground arith)),
          ),
          g.carries,
        );
        exact = λ i.
            ap (λ b. between offset (offset + chunk) i || b) (g.exact i)
            ∙ between_split offset chunk (suc r) i (omega arith);
      },
    )

any_touches-append :
    (xs ys : List LtpSegment) (i : ℕ)
    → any_touches (xs ++ ys) i ≡ (any_touches xs i || any_touches ys i)
any_touches-append [] ys i = refl
any_touches-append (x ∷ xs) ys i = let rest = any_touches-append xs ys i in ground arith

-- For gaps inside the block and a positive limit on the size of a segment, the segments are made,
-- each carries a piece of the block, and a byte is in one of them exactly if it is in a gap.
pub gap_segments-covers :
    (s : LtpSession) (max_seg : ℕ) (gaps : List ReceptionClaim)
    → 0 < max_seg
    → All (IsInside s) gaps
    → (segs : List LtpSegment) × (gap_segments s max_seg gaps ≡ ok segs)
      × All (Carries s.client_data) segs
      × ((i : ℕ) → any_touches segs i ≡ covers gaps i)
unfolding gap_segments covers
gap_segments-covers s max_seg [] m h = ([], refl, tt, λ i. refl)
gap_segments-covers s max_seg (gap ∷ gaps) m h =
    let (segs, q, g) =
      gap_loop-AreGap gap.length s max_seg gap.offset gap.length m (omega arith) h.0 in
    let (more, r, c, e) = gap_segments-covers s max_seg gaps m h.1 in
    (
      segs ++ more,
      rw (q, r) refl,
      All-append (Carries s.client_data) segs more g.carries c,
      λ i.
          any_touches-append segs more i
          ∙ ap (λ b. b || any_touches more i) (g.exact i)
          ∙ ap (λ b. between gap.offset (gap.offset + gap.length) i || b) (e i),
    )

-- A gap that begins in the block or at its end and reaches past it makes the loop, with a positive
-- limit on the size of a segment and fuel for the length of the gap, read outside of the block.
pub gap_loop-out_of_bounds :
    (fuel : ℕ) (s : LtpSession) (max_seg offset len : ℕ)
    → 0 < max_seg
    → len ≤ fuel
    → offset ≤ length s.client_data
    → length s.client_data < offset + len
    → gap_loop fuel s max_seg offset len ≡ err out_of_bounds
unfolding gap_loop
gap_loop-out_of_bounds fuel s max_seg offset zero m f l h = absurd (omega arith)
gap_loop-out_of_bounds zero s max_seg offset (suc r) m f l h = absurd (omega arith)
gap_loop-out_of_bounds (suc fuel) s max_seg offset (suc r) m f l h =
    let chunk = min max_seg (suc r) in
    elim (Bool-cases (leb (offset + chunk) (length s.client_data))) [
      | inl t ↦
          let cut = slice_inside offset chunk s.client_data (ground arith) in
          rw
            (
              cut,
              gap_loop-out_of_bounds fuel s max_seg (offset + chunk) (suc r - chunk) m (omega arith)
                  (ground arith) (omega arith),
            )
            refl
      | inr t ↦ rw (slice_outside offset chunk s.client_data (ground arith)) refl
    ]
