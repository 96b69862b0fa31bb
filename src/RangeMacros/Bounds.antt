-- ===== src/RangeMacros/Bounds.antt =====
-- What the test for a range within another answers, in terms of the numbers and not of their
-- differences at the width of a word.
use regexkit.Base.{ℕ, ◌+◌, ◌-◌, ◌≡◌, ◌≤◌, ◌<◌, ◌↔◌, arith, true}
use regexkit.Foundation.{NsRange, make_range, word}
use regexkit.RangeMacros.{range_inside_range}

-- A range whose end is a number of a machine word.
abbrev pub IsBounded : NsRange → Type 0
IsBounded r = r.location + r.length < word

-- The range lies within the other one.
abbrev pub Inside : NsRange → NsRange → Type 0
Inside inside within =
    (within.location ≤ inside.location)
    × (inside.location + inside.length ≤ within.location + within.length)

-- For ranges whose ends do not pass the width of a machine word, the test with two differences,
-- which may wrap around, says whether the one range lies within the other.
pub range_inside_range-Inside :
    (inside within : NsRange)
    → IsBounded inside
    → IsBounded within
    → (range_inside_range inside within ≡ true) ↔ Inside inside within
unfolding range_inside_range
range_inside_range-Inside inside within b c = (
  (λ h. (ground (arith, h, b, c), ground (arith, h, b, c))),
  (λ (lo, hi). ground (arith, lo, hi, b, c)),
)

-- A range whose end wraps around is taken for one within `within`, though it covers all addresses
-- but one from a place in it.
pub range_inside_range-wrapped :
    (within : NsRange) (start : ℕ)
    → IsBounded within
    → within.location < start
    → start ≤ within.location + within.length
    → range_inside_range (make_range start (word - 1)) within ≡ true
unfolding range_inside_range
range_inside_range-wrapped within start b lo hi = ground (arith, b, lo, hi)
