-- ===== src/Ltp/Engine/Originate/Chunks.antt =====
-- The segments of a block: consecutive pieces of it, none longer than the limit, of which the last
-- alone ends the block.
use mathlib.Core.Path.{subst}
use qpsk_b.Base.{
  ℕ, zero, suc, ◌+◌, ◌-◌, ◌≤◌, ◌<◌, ◌≡◌, refl, sym, Bool, true, false, ◌&&◌, none, some, List, [],
  ◌∷◌, inl, inr, Bool-cases, ◌==◌, arith, length, take, drop, min, ◌⊎◌,
}
use qpsk_b.Base.Result.{ok}
use qpsk_b.Ltp.Segment.{DataSegContent, data_seg, LtpSegment}
use qpsk_b.Ltp.SegType.{has_eob, has_checkpoint, is_red}
use qpsk_b.Ltp.Session.{LtpSession}
use qpsk_b.Ltp.Engine.State.{inc64, slice}
use qpsk_b.Ltp.Engine.Originate.{data_content, chunk_segment, segment_loop, segment_data_impl}

-- The segment carries `ds`, the piece of the session's block from `offset` on.
pub record IsChunk (s : LtpSession) (max_seg offset : ℕ) (seg : LtpSegment) (ds : DataSegContent)
    : Type 0 where
  pub content : seg.content ≡ data_seg ds
  pub engine_id : seg.engine_id ≡ s.engine_id
  pub session_number : seg.session_number ≡ s.session_number
  pub begins : ds.offset ≡ offset
  pub bytes : ds.bytes ≡ take ds.length (drop offset s.client_data)
  pub bounded : ds.length ≤ max_seg
  pub inside : offset + ds.length ≤ length s.client_data
  pub colour : is_red seg.segment_type ≡ s.is_red
  pub ends : has_eob seg.segment_type ≡ (offset + ds.length == length s.client_data)
  pub checkpoint :
      has_checkpoint seg.segment_type ≡ (s.is_red && (offset + ds.length == length s.client_data))

-- Consecutive chunks, from `offset` to the end of the block.
abbrev pub AreChunks : LtpSession → ℕ → ℕ → List LtpSegment → Type 0
AreChunks s max_seg offset [] = offset ≡ length s.client_data
AreChunks s max_seg offset (seg ∷ segs) =
    (ds : DataSegContent) × IsChunk s max_seg offset seg ds
    × AreChunks s max_seg (offset + ds.length) segs

-- The last segment ends the block, and no other does; there is one at least.
abbrev pub EndsAlone : List LtpSegment → Type 0
EndsAlone [] = ⊥
EndsAlone (seg ∷ []) = has_eob seg.segment_type ≡ true
EndsAlone (seg ∷ seg' ∷ segs) = (has_eob seg.segment_type ≡ false) × EndsAlone (seg' ∷ segs)

EndsAlone-cons :
    (seg : LtpSegment) (segs : List LtpSegment)
    → has_eob seg.segment_type ≡ false
    → EndsAlone segs
    → EndsAlone (seg ∷ segs)
EndsAlone-cons seg [] h e = absurd e
EndsAlone-cons seg (seg' ∷ segs) h e = (h, e)

-- What is left of the block is nothing, and so are its segments, or they end it.
abbrev pub EndsRest : ℕ → List LtpSegment → Type 0
EndsRest remaining segs = ((remaining ≡ 0) × (segs ≡ [])) ⊎ ((0 < remaining) × EndsAlone segs)

EndsRest-cons :
    (seg : LtpSegment) (segs : List LtpSegment) (remaining : ℕ)
    → has_eob seg.segment_type ≡ (remaining == 0)
    → EndsRest remaining segs
    → EndsAlone (seg ∷ segs)
EndsRest-cons seg segs remaining h (inl (z, none_left)) =
    let ends : has_eob seg.segment_type ≡ true = ground arith in
    subst (λ l. EndsAlone (seg ∷ l)) (sym none_left) ends
EndsRest-cons seg segs remaining h (inr (some_left, e)) = EndsAlone-cons seg segs (ground arith) e

chunk_segment-IsChunk :
    (s : LtpSession) (max_seg offset chunk cp : ℕ) (bytes : List ℕ)
    → chunk ≤ max_seg
    → offset + chunk ≤ length s.client_data
    → bytes ≡ take chunk (drop offset s.client_data)
    → (is_last : Bool) → is_last ≡ (offset + chunk == length s.client_data)
    → (red : Bool) → s.is_red ≡ red
    → (ds : DataSegContent) × IsChunk s max_seg offset
        (chunk_segment s offset chunk is_last bytes cp).0
        ds
      × (ds.length ≡ chunk)
unfolding chunk_segment
chunk_segment-IsChunk s max_seg offset chunk cp bytes h i q true l true r = rw r (
  data_content offset chunk (some (inc64 cp)) (some 0) bytes,
  record {
    content = refl;
    engine_id = refl;
    session_number = refl;
    begins = refl;
    bytes = q;
    bounded = h;
    inside = i;
    colour = refl;
    ends = l;
    checkpoint = l;
  },
  refl,
)
chunk_segment-IsChunk s max_seg offset chunk cp bytes h i q true l false r = rw r (
  data_content offset chunk none none bytes,
  record {
    content = refl;
    engine_id = refl;
    session_number = refl;
    begins = refl;
    bytes = q;
    bounded = h;
    inside = i;
    colour = refl;
    ends = l;
    checkpoint = refl;
  },
  refl,
)
chunk_segment-IsChunk s max_seg offset chunk cp bytes h i q false l true r = rw r (
  data_content offset chunk none none bytes,
  record {
    content = refl;
    engine_id = refl;
    session_number = refl;
    begins = refl;
    bytes = q;
    bounded = h;
    inside = i;
    colour = refl;
    ends = l;
    checkpoint = l;
  },
  refl,
)
chunk_segment-IsChunk s max_seg offset chunk cp bytes h i q false l false r = rw r (
  data_content offset chunk none none bytes,
  record {
    content = refl;
    engine_id = refl;
    session_number = refl;
    begins = refl;
    bytes = q;
    bounded = h;
    inside = i;
    colour = refl;
    ends = l;
    checkpoint = refl;
  },
  refl,
)

slice-ok :
    (offset len : ℕ) (bytes : List ℕ)
    → offset + len ≤ length bytes
    → slice offset len bytes ≡ ok (take len (drop offset bytes))
unfolding slice
slice-ok offset len bytes h = ground arith

last_test :
    (offset chunk remaining total : ℕ)
    → offset + remaining ≡ total
    → (chunk == remaining) ≡ (offset + chunk == total)
last_test offset chunk remaining total h = ground arith

pub segment_loop-AreChunks :
    (fuel : ℕ) (s : LtpSession) (max_seg offset remaining cp : ℕ)
    → 0 < max_seg
    → remaining ≤ fuel
    → offset + remaining ≡ length s.client_data
    → (made : List LtpSegment × ℕ) × (segment_loop fuel s max_seg offset remaining cp ≡ ok made)
      × AreChunks s max_seg offset made.0
      × EndsRest remaining made.0
unfolding segment_loop
segment_loop-AreChunks fuel s max_seg offset zero cp m f e =
    (([], cp), refl, omega arith, inl (refl, refl))
segment_loop-AreChunks zero s max_seg offset (suc r) cp m f e = absurd (omega arith)
segment_loop-AreChunks (suc fuel) s max_seg offset (suc r) cp m f e =
    let chunk = min max_seg (suc r) in
    let bytes = take chunk (drop offset s.client_data) in
    let is_last = chunk == suc r in
    let last : is_last ≡ (offset + chunk == length s.client_data) =
      last_test offset chunk (suc r) (length s.client_data) e in
    let (ds, c, size) =
      chunk_segment-IsChunk s max_seg offset chunk cp bytes (omega arith) (omega arith) refl is_last
        last s.is_red refl in
    let made = chunk_segment s offset chunk is_last bytes cp in
    let ends : has_eob made.0.segment_type ≡ (suc r - chunk == 0) =
      (let known = c.ends in ground arith) in
    let (rest, q, cs, left) =
      segment_loop-AreChunks fuel s max_seg (offset + chunk) (suc r - chunk) made.1 m (omega arith)
        (omega arith) in
    let cut = slice-ok offset chunk s.client_data (omega arith) in
    (
      (made.0 ∷ rest.0, rest.1),
      rw (cut, q) refl,
      (ds, c, subst (λ n. AreChunks s max_seg (offset + n) rest.0) (sym size) cs),
      inr (omega arith, EndsRest-cons made.0 rest.0 (suc r - chunk) ends left),
    )

-- With a positive limit, `segment_data` returns, with consecutive chunks of the whole block, of which the
-- last ends the block and no other does.
pub segment_data_impl-AreChunks :
    (s : LtpSession) (max_seg cp : ℕ)
    → 0 < max_seg
    → (made : List LtpSegment × ℕ) × (segment_data_impl s max_seg cp ≡ ok made)
      × AreChunks s max_seg 0 made.0
      × EndsAlone made.0
unfolding segment_data_impl
segment_data_impl-AreChunks s max_seg cp m = elim (Bool-cases (length s.client_data == 0)) [
  | inl e ↦
      let (ds, c, size) =
        chunk_segment-IsChunk s max_seg 0 0 cp [] (omega arith) (omega arith) refl true
          (ground arith) s.is_red refl in
      let one = chunk_segment s 0 0 true [] cp in
      let known = c.ends in ((one.0 ∷ [], one.1), rw e refl, (ds, c, ground arith), ground arith)
  | inr e ↦
      let (made, q, cs, left) =
        segment_loop-AreChunks (length s.client_data) s max_seg 0 (length s.client_data) cp m
          (omega arith) (omega arith) in
      (made, rw e q, cs, elim left [ inl z ↦ absurd (ground arith) | inr l ↦ l.1 ])
]
