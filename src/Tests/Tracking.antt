-- ===== src/Tests/Tracking.antt =====
-- Byte ranges of a block with two holes.
use qpsk_b.Base.{◌+◌, ◌≡◌, refl, ◌&&◌, ◌||◌, not, List, [], ◌∷◌, arith}
use qpsk_b.Ltp.Segment.{ReceptionClaim}
use qpsk_b.Ltp.Tracker.{claim, add_range, insert_range, merge_ranges, get_gaps, gaps_from}
use qpsk_b.Ltp.Tracker.Invariant.{IsValid, add_range-IsValid}
use qpsk_b.Ltp.Tracker.Coverage.{covers, between, covers-add_range}
use qpsk_b.Ltp.Tracker.Gaps.{covers-get_gaps}

-- Bytes 0 to 3 and 10 to 11.
abbrev two_ranges : List ReceptionClaim
two_ranges = claim 0 4 ∷ claim 10 2 ∷ []

two_ranges-IsValid : IsValid two_ranges
two_ranges-IsValid =
    (omega arith, omega arith, omega arith, (omega arith, omega arith, omega arith, tt))

bridged : add_range 4 6 two_ranges ≡ claim 0 12 ∷ []
unfolding add_range insert_range merge_ranges
bridged = refl

holes : get_gaps two_ranges 2 15 ≡ claim 4 6 ∷ claim 12 3 ∷ []
unfolding get_gaps gaps_from
holes = refl

add_range-IsValid_example : IsValid (add_range 3 5 two_ranges)
add_range-IsValid_example = add_range-IsValid 3 5 two_ranges (omega arith) two_ranges-IsValid

covers-add_range_example :
    covers (add_range 3 5 two_ranges) 7 ≡ (between 3 (3 + 5) 7 || covers two_ranges 7)
covers-add_range_example = covers-add_range 7 3 5 two_ranges (omega arith) two_ranges-IsValid

covers-get_gaps_example :
    covers (get_gaps two_ranges 2 15) 5 ≡ (between 2 15 5 && not (covers two_ranges 5))
covers-get_gaps_example = covers-get_gaps 5 2 15 two_ranges (omega arith) two_ranges-IsValid
