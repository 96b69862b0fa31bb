-- ===== src/Regex.antt =====
-- Source/RKRegex.m, `getRanges:count:withCharacters:length:inRange:options:error:`. pcre writes pairs
-- of 32-bit integers into the memory of the ranges, and the method turns them into ranges there.
-- `pcre_exec` is a parameter.
pub mod Cells
pub mod Conversion
pub mod Names
pub mod NameSearch
pub mod Matching
pub mod Header
pub mod Asked
pub mod CaptureNames
pub mod Choice
pub mod SortedRun
pub mod ChosenName
pub mod NamesHeader
pub mod NamesDocumented
pub mod Documented
use regexkit.Base.{
  ℕ, zero, suc, ◌+◌, ◌-◌, ◌*◌, ◌/◌, ◌%◌, ◌^◌, Bool, true, false, not, ◌&&◌, ◌||◌, if◌then◌else◌,
  ltb, ◌==◌, Outcome, ok, raise, invalid_argument, range_exception,
}
use regexkit.Foundation.{NsRange, make_range, max_range, not_found, word}

-- The memory at `ranges`, in cells of 32 bits: vector `x` is the cells `2 * x` and `2 * x + 1`, and
-- range `x` is the cells `4 * x` to `4 * x + 3`, the low half of a word first.
abbrev pub Memory : Type 0
Memory = ℕ → ℕ

abbrev pub half : ℕ
half = 2 ^ 32

-- The cell of an `int` that is -1.
abbrev pub minus_one : ℕ
minus_one = half - 1

-- An `int` as an `NSUInteger`.
abbrev pub extend : ℕ → ℕ
extend c = if ltb c (2 ^ 31) then c else c + (word - half)

unfoldable pub write : Memory → ℕ → ℕ → Memory
write m i v j = if i == j then v else m j

unfoldable pub write_range : Memory → ℕ → NsRange → Memory
write_range m x r =
    write
      (write (write (write m (4 * x) (r.location % half)) (4 * x + 1) (r.location / half))
        (4 * x + 2) (r.length % half))
      (4 * x + 3) (r.length / half)

unfoldable pub read_range : Memory → ℕ → NsRange
read_range m x =
    make_range (m (4 * x) + half * m (4 * x + 1)) (m (4 * x + 2) + half * m (4 * x + 3))

-- The range of a vector; the difference is taken at type `int`.
unfoldable pub range_of : ℕ → ℕ → NsRange
range_of from to =
    if from == minus_one
    then make_range not_found 0
    else make_range (extend from) (extend ((to + half - from) % half))

unfoldable pub convert_at : Memory → ℕ → Memory
convert_at m x = write_range m x (range_of (m (2 * x)) (m (2 * x + 1)))

-- The loop from `x` down to 1.
unfoldable pub convert_down : ℕ → Memory → Memory
convert_down zero m = m
convert_down (suc x) m = convert_down x (convert_at m (suc x))

-- The last loop: `n` ranges from `x` on that pcre said nothing of.
unfoldable pub fill : ℕ → ℕ → Memory → Memory
fill x zero m = m
fill x (suc n) m = fill (suc x) n (write_range m x (make_range not_found 0))

-- `RKMatchErrorCode`: a positive number of results, or minus a number.
pub data MatchCode : Type 0 where
  results : ℕ → MatchCode
  failed : ℕ → MatchCode

-- Whether `length < location` or one of the other checks of the range fails.
abbrev pub is_out_of_range : ℕ → NsRange → Bool
is_out_of_range n r =
    ltb n r.location
    || (ltb n ((r.location + r.length) % word)
        || (ltb (2 ^ 31 - 1) r.location || (ltb (2 ^ 31 - 1) r.length || ltb (2 ^ 31 - 1) n)))

-- The lines behind `pcre_exec`: the code, the memory, and whether there is an `NSError`.
unfoldable pub after_exec : ℕ → NsRange → MatchCode × Memory → MatchCode × Memory × Bool
after_exec captures r (failed n, m) = (failed n, m, ltb 1 n)
after_exec captures r (results n, m) =
    if not (m 1 == minus_one) && ltb (max_range r) (extend (m 1))
    then (failed 1, m, false)
    else (results n, fill n (captures - n) (convert_at (convert_down (n - 1) m) 0), false)

-- The method. `exec length location memory` stands for the call of `pcre_exec` for this regex, these
-- characters and options; the two tests say whether an argument is `NULL`.
unfoldable pub get_ranges :
    (ℕ → ℕ → Memory → MatchCode × Memory)
    → ℕ
    → Bool
    → Bool
    → Memory
    → ℕ
    → NsRange
    → Outcome (MatchCode × Memory × Bool)
get_ranges exec captures no_ranges no_characters m n r =
    if no_ranges || no_characters
    then raise invalid_argument
    else if is_out_of_range n r
    then raise range_exception
    else ok (after_exec captures r (exec n r.location m))
