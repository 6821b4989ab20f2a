-- ===== src/Ltp/Tracker/Canonical.antt =====
-- The ranges are determined by the bytes that they cover, so the order of arrival does not matter.
use qpsk_b.Base.{ℕ, ◌+◌, ◌^◌, ◌<◌, ◌≡◌, refl, List, [], ◌∷◌, arith}
use qpsk_b.Ltp.Segment.{ReceptionClaim}
use qpsk_b.Ltp.Tracker.{add_range}
use qpsk_b.Ltp.Tracker.Invariant.{Separated, IsValid, add_range-IsValid}
use qpsk_b.Ltp.Tracker.Coverage.{covers, covers-below, covers-add_range}

module _ (r s : ReceptionClaim) (rs ss : List ReceptionClaim) (j k : ℕ) (v : Separated j (r ∷ rs))
    (w : Separated k (s ∷ ss)) (same : (x : ℕ) → covers (r ∷ rs) x ≡ covers (s ∷ ss) x) where
  head-offset : r.offset ≡ s.offset
  unfolding covers
  head-offset = ground (
    arith,
    same r.offset,
    same s.offset,
    covers-below r.offset (s.offset + s.length + 1) ss w.3,
    covers-below s.offset (r.offset + r.length + 1) rs v.3,
  )

  head-length : r.length ≡ s.length
  unfolding covers
  head-length = ground (
    arith,
    head-offset,
    same (r.offset + r.length),
    same (s.offset + s.length),
    covers-below (r.offset + r.length) (r.offset + r.length + 1) rs v.3,
    covers-below (s.offset + s.length) (s.offset + s.length + 1) ss w.3,
  )

  same_tail : (x : ℕ) → covers rs x ≡ covers ss x
  unfolding covers
  same_tail x = ground (
    arith,
    head-offset,
    head-length,
    same x,
    covers-below x (r.offset + r.length + 1) rs v.3,
    covers-below x (s.offset + s.length + 1) ss w.3,
  )

-- Valid ranges that cover the same bytes are the same list.
pub covers-injective :
    (xs ys : List ReceptionClaim) (j k : ℕ)
    → Separated j xs
    → Separated k ys
    → ((x : ℕ) → covers xs x ≡ covers ys x)
    → xs ≡ ys
unfolding covers
covers-injective [] [] j k v w h = refl
covers-injective [] (s ∷ ss) j k v w h = ground (arith, h s.offset)
covers-injective (r ∷ rs) [] j k v w h = ground (arith, h r.offset)
covers-injective (r ∷ rs) (s ∷ ss) j k v w h =
    let tails : rs ≡ ss = covers-injective rs ss _ _ v.3 w.3 (same_tail r s rs ss j k v w h) in
    ground (arith, head-offset r s rs ss j k v w h, head-length r s rs ss j k v w h, tails)

-- Two segments leave the same ranges in whichever order they arrive.
pub add_range_comm :
    (offset len offset' len' : ℕ) (ranges : List ReceptionClaim)
    → offset + len < 2 ^ 64
    → offset' + len' < 2 ^ 64
    → IsValid ranges
    → add_range offset len (add_range offset' len' ranges)
      ≡ add_range offset' len' (add_range offset len ranges)
add_range_comm o l o' l' ranges h h' v =
    let v1 = add_range-IsValid o l ranges h v in
    let v2 = add_range-IsValid o' l' ranges h' v in
    covers-injective _ _ 0 0 (add_range-IsValid o l _ h v2) (add_range-IsValid o' l' _ h' v1) λ x.
      ground (
        arith,
        covers-add_range x o l (add_range o' l' ranges) h v2,
        covers-add_range x o' l' ranges h' v,
        covers-add_range x o' l' (add_range o l ranges) h' v1,
        covers-add_range x o l ranges h v,
      )

-- A segment that arrives twice leaves the ranges as they were after the first time.
pub add_range_idem :
    (offset len : ℕ) (ranges : List ReceptionClaim)
    → offset + len < 2 ^ 64
    → IsValid ranges
    → add_range offset len (add_range offset len ranges) ≡ add_range offset len ranges
add_range_idem o l ranges h v =
    let v1 = add_range-IsValid o l ranges h v in
    covers-injective _ _ 0 0 (add_range-IsValid o l _ h v1) v1 λ x.
      ground (
        arith,
        covers-add_range x o l (add_range o l ranges) h v1,
        covers-add_range x o l ranges h v,
      )
