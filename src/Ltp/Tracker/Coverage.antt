-- ===== src/Ltp/Tracker/Coverage.antt =====
-- Which bytes the ranges hold.
use qpsk_b.Base.{
  ℕ, inl, inr, Bool-cases, ◌+◌, ◌^◌, ◌≤◌, ◌<◌, ◌≡◌, refl, Bool, true, false, ◌&&◌, ◌||◌, List, [],
  ◌∷◌, leb, ltb, ◌==◌, min, max, arith,
}
use qpsk_b.Base.Bits.{add64}
use qpsk_b.Ltp.Segment.{ReceptionClaim}
use qpsk_b.Ltp.Tracker.{merge_ranges, insert_range, add_range, is_whole, is_complete}
use qpsk_b.Ltp.Tracker.Invariant.{Separated, IsValid, Reaches, Reaches-later}

abbrev pub between : ℕ → ℕ → ℕ → Bool
between lo hi x = leb lo x && ltb x hi

-- Byte `x` lies in one of the ranges.
unfoldable pub covers : List ReceptionClaim → ℕ → Bool
covers [] x = false
covers (r ∷ rs) x = between r.offset (r.offset + r.length) x || covers rs x

pub covers-below :
    (x lo : ℕ) (rs : List ReceptionClaim) → Separated lo rs → x < lo → covers rs x ≡ false
unfolding covers
covers-below x lo [] v h = refl
covers-below x lo (r ∷ rs) v h = ground (arith, covers-below x (r.offset + r.length + 1) rs v.3)

covers-merge_ranges :
    (x : ℕ) (rs : List ReceptionClaim) (s e k : ℕ)
    → s < e
    → e < 2 ^ 64
    → Separated k rs
    → Reaches s rs
    → covers (merge_ranges s e rs) x ≡ (between s e x || covers rs x)
unfolding covers merge_ranges
covers-merge_ranges x [] s e k h1 h2 v g = ground arith
covers-merge_ranges x (r ∷ rs) s e k h1 h2 v g =
    let s' : ℕ = min s r.offset in
    let e' : ℕ = max e (add64 r.offset r.length) in
    let next : ℕ = r.offset + r.length + 1 in
    ground (
      arith,
      covers-merge_ranges x rs s' e' next (omega arith) (omega arith) v.3
          (Reaches-later s' next rs (omega arith) v.3),
    )

covers-insert_range :
    (x : ℕ) (rs : List ReceptionClaim) (s e k : ℕ)
    → s < e
    → e < 2 ^ 64
    → Separated k rs
    → covers (insert_range s e rs) x ≡ (between s e x || covers rs x)
unfolding covers insert_range
covers-insert_range x [] s e k h1 h2 v = covers-merge_ranges x [] s e k h1 h2 v tt
covers-insert_range x (r ∷ rs) s e k h1 h2 v = ground (
  arith,
  covers-insert_range x rs s e (r.offset + r.length + 1),
  covers-merge_ranges x (r ∷ rs) s e k h1 h2 v,
)

-- After `add_range` to valid ranges, with the end of the new range below 2^64, a byte is covered exactly where
-- it lies in the new range or was covered before.
pub covers-add_range :
    (x offset len : ℕ) (ranges : List ReceptionClaim)
    → offset + len < 2 ^ 64
    → IsValid ranges
    → covers (add_range offset len ranges) x ≡ (between offset (offset + len) x || covers ranges x)
unfolding add_range
covers-add_range x offset len ranges h v =
    ground (arith, covers-insert_range x ranges offset (add64 offset len) 0)

is_whole-covers :
    (total : ℕ) (ranges : List ReceptionClaim) (x : ℕ)
    → is_whole ranges total ≡ true
    → IsValid ranges
    → x < total
    → covers ranges x ≡ true
unfolding is_whole covers
is_whole-covers total [] x e v h = cc
is_whole-covers total (r ∷ []) x e v h = ground arith
is_whole-covers total (r ∷ s ∷ rs) x e v h = cc

covers-is_whole :
    (total : ℕ) (ranges : List ReceptionClaim)
    → 0 < total
    → IsValid ranges
    → ((x : ℕ) → x < total → covers ranges x ≡ true)
    → ((x : ℕ) → total ≤ x → covers ranges x ≡ false)
    → is_whole ranges total ≡ true
unfolding is_whole covers
covers-is_whole total [] h v all none_above = ground (arith, all 0 h)
covers-is_whole total (r ∷ []) h v all none_above = ground (arith, all 0 h, all r.length)
covers-is_whole total (r ∷ s ∷ rs) h v all none_above = ground (
  arith,
  all 0 h,
  all r.length,
  none_above s.offset,
  covers-below 0 (s.offset + s.length + 1) rs v.3.3,
  covers-below r.length (s.offset + s.length + 1) rs v.3.3,
)

-- Where no byte past the block is held, `is_complete(n)` says exactly that all bytes below `n` are
-- covered. Without that condition it still implies it.
pub is_complete_iff :
    (total : ℕ) (ranges : List ReceptionClaim)
    → IsValid ranges
    → (is_complete ranges total ≡ true → (x : ℕ) → x < total → covers ranges x ≡ true)
      × (((x : ℕ) → x < total → covers ranges x ≡ true)
          → ((x : ℕ) → total ≤ x → covers ranges x ≡ false)
          → is_complete ranges total ≡ true)
unfolding is_complete
is_complete_iff total ranges v = (
  λ e x h. is_whole-covers total ranges x (ground arith) v h,
  λ all above. elim (Bool-cases (total == 0)) [
    | inl e ↦ rw e
    | inr e ↦ rw e (covers-is_whole total ranges (ground arith) v all above)
  ],
)
