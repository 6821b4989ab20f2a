-- ===== src/Ltp/Tracker.antt =====
-- src/ltp_cla/reception_tracker.cpp: the byte ranges received so far, `ranges_`, as a list of claims.
-- Sums of an offset and a length are 64-bit sums.
pub mod Invariant
pub mod Coverage
pub mod Gaps
pub mod Canonical
use qpsk_b.Base.{
  ℕ, ◌<◌, Bool, true, false, ◌&&◌, List, [], ◌∷◌, ◌++◌, ltb, leb, ◌==◌, if◌then◌else◌, length, min,
  max,
}
use qpsk_b.Base.Bits.{add64, sub64}
use qpsk_b.Ltp.Segment.{ReceptionClaim}

abbrev pub claim : ℕ → ℕ → ReceptionClaim
claim offset len = record { offset = offset; length = len }

-- `r.offset + r.length`.
abbrev pub range_end : ReceptionClaim → ℕ
range_end r = add64 r.offset r.length

-- The second loop, and the insertion: ranges that begin at `new_end` or before are merged.
unfoldable pub merge_ranges : ℕ → ℕ → List ReceptionClaim → List ReceptionClaim
merge_ranges new_start new_end [] = claim new_start (sub64 new_end new_start) ∷ []
merge_ranges new_start new_end (r ∷ rs) =
    let merged = merge_ranges (min new_start r.offset) (max new_end (range_end r)) rs in
    if leb r.offset new_end then merged else claim new_start (sub64 new_end new_start) ∷ r ∷ rs

-- The first loop passes by the ranges that end before `new_start`.
unfoldable pub insert_range : ℕ → ℕ → List ReceptionClaim → List ReceptionClaim
insert_range new_start new_end [] = merge_ranges new_start new_end []
insert_range new_start new_end (r ∷ rs) =
    let later = insert_range new_start new_end rs in
    if ltb (range_end r) new_start then r ∷ later else merge_ranges new_start new_end (r ∷ rs)

unfoldable pub add_range : ℕ → ℕ → List ReceptionClaim → List ReceptionClaim
add_range offset len ranges =
    if len == 0 then ranges else insert_range offset (add64 offset len) ranges

-- `ranges_.size() == 1 && ranges_[0].offset == 0 && ranges_[0].length >= total_length`.
unfoldable pub is_whole : List ReceptionClaim → ℕ → Bool
is_whole [] total_length = false
is_whole (r ∷ []) total_length = r.offset == 0 && leb total_length r.length
is_whole (r ∷ s ∷ rs) total_length = false

unfoldable pub is_complete : List ReceptionClaim → ℕ → Bool
is_complete ranges total_length = if total_length == 0 then true else is_whole ranges total_length

-- The loop over the ranges, and the gap behind the last one.
unfoldable pub gaps_from : ℕ → ℕ → List ReceptionClaim → List ReceptionClaim
gaps_from cursor upper [] = if ltb cursor upper then claim cursor (sub64 upper cursor) ∷ [] else []
gaps_from cursor upper (r ∷ rs) =
    let skipped = gaps_from cursor upper rs in
    let passed = gaps_from (max cursor (range_end r)) upper rs in
    if leb upper cursor
    then []
    else if leb (range_end r) cursor
    then skipped
    else if ltb cursor r.offset
    then claim cursor (sub64 (min r.offset upper) cursor) ∷ passed
    else passed

unfoldable pub get_gaps : List ReceptionClaim → ℕ → ℕ → List ReceptionClaim
get_gaps ranges lower upper = if leb upper lower then [] else gaps_from lower upper ranges

unfoldable pub total_received : List ReceptionClaim → ℕ
total_received [] = 0
total_received (r ∷ rs) = add64 r.length (total_received rs)
