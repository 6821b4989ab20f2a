-- ===== src/Ltp/Tracker/Gaps.antt =====
-- `get_gaps` returns what the ranges leave open.
use qpsk_b.Base.{
  ℕ, inl, inr, Bool-cases, ◌+◌, ◌^◌, ◌≤◌, ◌<◌, ◌≡◌, not, ◌&&◌, List, [], ◌∷◌, leb, ltb, min, max,
  arith,
}
use qpsk_b.Base.Bits.{add64}
use qpsk_b.Ltp.Segment.{ReceptionClaim}
use qpsk_b.Ltp.Tracker.{gaps_from, get_gaps}
use qpsk_b.Ltp.Tracker.Invariant.{Separated, Separated-mono, IsValid}
use qpsk_b.Ltp.Tracker.Coverage.{between, covers, covers-below}

gaps_from-Separated :
    (rs : List ReceptionClaim) (cursor upper k : ℕ)
    → cursor < 2 ^ 64
    → upper < 2 ^ 64
    → Separated k rs
    → Separated cursor (gaps_from cursor upper rs)
unfolding gaps_from
gaps_from-Separated [] cursor upper k h1 h2 v = ground arith
gaps_from-Separated (r ∷ rs) cursor upper k h1 h2 v =
    let passed_from : ℕ = max cursor (add64 r.offset r.length) in
    let next : ℕ = r.offset + r.length + 1 in
    let passed = gaps_from passed_from upper rs in
    let v' = gaps_from-Separated rs passed_from upper next (omega arith) h2 v.3 in
    ground (
      arith,
      gaps_from-Separated rs cursor upper next h1 h2 v.3,
      Separated-mono passed_from cursor passed (omega arith) v',
      λ (h : min r.offset upper + 1 ≤ passed_from).
          Separated-mono passed_from (min r.offset upper + 1) passed h v',
    )

covers-gaps_from :
    (x : ℕ) (rs : List ReceptionClaim) (cursor upper k : ℕ)
    → cursor < 2 ^ 64
    → upper < 2 ^ 64
    → Separated k rs
    → covers (gaps_from cursor upper rs) x ≡ (between cursor upper x && not (covers rs x))
unfolding gaps_from covers
covers-gaps_from x [] cursor upper k h1 h2 v = ground arith
covers-gaps_from x (r ∷ rs) cursor upper k h1 h2 v =
    let next : ℕ = r.offset + r.length + 1 in
    let stop : ℕ = max cursor (add64 r.offset r.length) in
    let skipped = covers-gaps_from x rs cursor upper next h1 h2 v.3 in
    let passed = covers-gaps_from x rs stop upper next (omega arith) h2 v.3 in
    let below = covers-below x next rs v.3 in
    elim (Bool-cases (leb upper cursor)) [
      | inl e ↦ rw e (ground arith)
      | inr e ↦ elim (Bool-cases (leb (add64 r.offset r.length) cursor)) [
        | inl f ↦ rw (e, f, skipped) (ground (arith, below))
        | inr f ↦ elim (Bool-cases (ltb cursor r.offset)) [
          | inl g ↦ rw (e, f, g, passed) (ground (arith, below))
          | inr g ↦ rw (e, f, g, passed) (ground (arith, below))
        ]
      ]
    ]

-- The gaps within [lower, upper) hold exactly the bytes of that interval that no range covers.
pub covers-get_gaps :
    (x lower upper : ℕ) (ranges : List ReceptionClaim)
    → upper < 2 ^ 64
    → IsValid ranges
    → covers (get_gaps ranges lower upper) x ≡ (between lower upper x && not (covers ranges x))
unfolding get_gaps covers
covers-get_gaps x lower upper ranges h v =
    ground (arith, λ (l : lower < 2 ^ 64). covers-gaps_from x ranges lower upper 0 l h v)

-- The gaps are themselves sorted, non-empty, non-overlapping and non-adjacent.
pub get_gaps-IsValid :
    (lower upper : ℕ) (ranges : List ReceptionClaim)
    → upper < 2 ^ 64
    → IsValid ranges
    → IsValid (get_gaps ranges lower upper)
unfolding get_gaps
get_gaps-IsValid lower upper ranges h v =
    let from_lower = gaps_from lower upper ranges in
    ground (
      arith,
      λ (l : lower < 2 ^ 64).
          Separated-mono lower 0 from_lower (omega arith)
            (gaps_from-Separated ranges lower upper 0 l h v),
    )
