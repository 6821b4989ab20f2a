-- ===== src/Ltp/Tracker/Invariant.antt =====
-- The representation invariant of `ranges_`: sorted, not empty, with a byte between two ranges.
use qpsk_b.Base.{ℕ, ◌+◌, ◌^◌, ◌≤◌, ◌<◌, List, [], ◌∷◌, min, max, arith}
use qpsk_b.Base.Bits.{add64}
use qpsk_b.Ltp.Segment.{ReceptionClaim}
use qpsk_b.Ltp.Tracker.{merge_ranges, insert_range, add_range}

-- Ranges from `lo` on: none is empty, none wraps, and each begins past the end of the one before.
abbrev pub Separated : ℕ → List ReceptionClaim → Type 0
Separated lo [] = Unit {0}
Separated lo (r ∷ rs) =
    (lo ≤ r.offset)
    × (0 < r.length)
    × (r.offset + r.length < 2 ^ 64)
    × Separated (r.offset + r.length + 1) rs

abbrev pub IsValid : List ReceptionClaim → Type 0
IsValid = Separated 0

-- The first range is not passed by: it ends at `new_start` or later.
abbrev pub Reaches : ℕ → List ReceptionClaim → Type 0
Reaches new_start [] = Unit {0}
Reaches new_start (r ∷ rs) = new_start ≤ r.offset + r.length

pub Reaches-later : (s lo : ℕ) (rs : List ReceptionClaim) → s ≤ lo → Separated lo rs → Reaches s rs
Reaches-later s lo [] h v = tt
Reaches-later s lo (r ∷ rs) h v = omega arith

pub Separated-mono :
    (lo lo' : ℕ) (rs : List ReceptionClaim) → lo' ≤ lo → Separated lo rs → Separated lo' rs
Separated-mono lo lo' [] h v = tt
Separated-mono lo lo' (r ∷ rs) h v = (omega arith, v.1, v.2, v.3)

merge_ranges-Separated :
    (rs : List ReceptionClaim) (s e lo k : ℕ)
    → lo ≤ s
    → s < e
    → e < 2 ^ 64
    → lo ≤ k
    → Separated k rs
    → Reaches s rs
    → Separated lo (merge_ranges s e rs)
unfolding merge_ranges
merge_ranges-Separated [] s e lo k h1 h2 h3 h4 v g = omega arith
merge_ranges-Separated (r ∷ rs) s e lo k h1 h2 h3 h4 v g =
    let s' : ℕ = min s r.offset in
    let e' : ℕ = max e (add64 r.offset r.length) in
    let next : ℕ = r.offset + r.length + 1 in
    ground (
      arith,
      merge_ranges-Separated rs s' e' lo next (omega arith) (omega arith) (omega arith)
          (omega arith) v.3 (Reaches-later s' next rs (omega arith) v.3),
      Separated-mono next (e + 1) rs,
    )

insert_range-Separated :
    (rs : List ReceptionClaim) (s e lo : ℕ)
    → lo ≤ s
    → s < e
    → e < 2 ^ 64
    → Separated lo rs
    → Separated lo (insert_range s e rs)
unfolding insert_range
insert_range-Separated [] s e lo h1 h2 h3 v =
    merge_ranges-Separated [] s e lo lo h1 h2 h3 (omega arith) v tt
insert_range-Separated (r ∷ rs) s e lo h1 h2 h3 v = ground (
  arith,
  insert_range-Separated rs s e (r.offset + r.length + 1),
  merge_ranges-Separated (r ∷ rs) s e lo lo h1 h2 h3 (omega arith) v,
)

-- `add_range` keeps ranges that are sorted, non-empty, apart and within 64 bits so, where the end of the new
-- range is below 2^64.
pub add_range-IsValid :
    (offset len : ℕ) (ranges : List ReceptionClaim)
    → offset + len < 2 ^ 64
    → IsValid ranges
    → IsValid (add_range offset len ranges)
unfolding add_range
add_range-IsValid offset len ranges h v =
    ground (arith, insert_range-Separated ranges offset (add64 offset len) 0)
