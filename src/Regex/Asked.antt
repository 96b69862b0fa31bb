-- ===== src/Regex/Asked.antt =====
-- What the matching methods of Source/RKRegex.m make of the answer of the private `getRanges:…`.
use regexkit.Base.{
  ℕ, suc, ◌+◌, ◌<◌, ◌≡◌, refl, arith, leb, Bool, true, false, not, Option, none, List, [], ◌∷◌,
  get_or, length, ok, raise, Exception,
}
use regexkit.Foundation.{NsRange}
use regexkit.RangeMacros.{equal_ranges}
use regexkit.Regex.{Memory, MatchCode, failed, read_range}
use regexkit.Regex.Matching.{
  MatchCall, nowhere, pcre_error, ask, raise_unless_pcre, range_answer, range_for_characters_error,
  range_for_characters, matches_characters, matches_characters_error, copy_ranges, ranges_answer,
  ranges_for_characters_error, ranges_for_characters, copy_answer, get_ranges_error,
  get_ranges_raising,
}
use regexkit.Regex.Header.{
  MatchingMethods, MatchingDocumented, MatchingRefused, range_in, is_match, modified,
}

unfoldable pub matching_methods : MatchingMethods
matching_methods = record {
  matches_characters = matches_characters;
  matches_characters_error = matches_characters_error;
  range_for_characters = range_for_characters;
  range_for_characters_error = range_for_characters_error;
  ranges_for_characters = ranges_for_characters;
  ranges_for_characters_error = ranges_for_characters_error;
  get_ranges = get_ranges_raising;
  get_ranges_error = get_ranges_error;
}

raise_unless_pcre-pcre :
    {A : Type 0} (a : A) (error : Bool) → raise_unless_pcre (a, pcre_error error) ≡ ok a
unfolding raise_unless_pcre
raise_unless_pcre-pcre a true = refl
raise_unless_pcre-pcre a false = refl

not-not : (b : Bool) → not (not b) ≡ b
not-not true = refl
not-not false = refl

-- What the methods make of the answer of the private one.
pub asked-documented :
    (c : MatchCall) (code : MatchCode) (m : Memory) (error : Bool) (answer : Option (List NsRange))
    (capture : ℕ) (ranges : List NsRange)
    → c.no_stack ≡ false
    → capture < c.captures
    → ask c ≡ ok (code, m, error)
    → range_answer c.search capture (code, m, error) ≡ (range_in answer capture, pcre_error error)
    → range_answer c.search 0 (code, m, error) ≡ (range_in answer 0, pcre_error error)
    → equal_ranges nowhere (range_in answer 0) ≡ not (is_match answer)
    → ranges_answer c (code, m, error) ≡ (answer, pcre_error error)
    → copy_answer c.captures ranges (code, m, error)
      ≡ ((code, modified c.captures answer ranges), pcre_error error)
    → MatchingDocumented matching_methods c code answer (pcre_error error) capture ranges
unfolding matching_methods range_for_characters_error range_for_characters matches_characters
    matches_characters_error ranges_for_characters_error ranges_for_characters get_ranges_error
    get_ranges_raising
asked-documented c code m error answer capture ranges stack lt asked one zeroth test all low =
    let below : leb c.captures capture ≡ false = ground (arith, lt) in
    let some_captures : leb c.captures 0 ≡ false = ground (arith, lt) in
    let agree = not-not (is_match answer) in
    record {
      matches = rw (asked, zeroth, stack, some_captures, raise_unless_pcre-pcre, test, agree) refl;
      matches_error = rw (asked, zeroth, stack, some_captures, test, agree) refl;
      range = rw (asked, one, stack, below, raise_unless_pcre-pcre) refl;
      range_error = rw (asked, one, stack, below) refl;
      all = rw (asked, all, stack, raise_unless_pcre-pcre) refl;
      all_error = rw (asked, all, stack) refl;
      low_level = rw (asked, low, stack, raise_unless_pcre-pcre) refl;
      low_level_error = rw (asked, low, stack) refl;
    }

pub zero_start : (n : ℕ) → 0 + n ≡ n
zero_start n = omega arith

start_zero : (n : ℕ) → n + 0 ≡ n
start_zero n = omega arith

start_suc : (m n : ℕ) → m + suc n ≡ suc m + n
start_suc m n = omega arith

pub copy_ranges-found :
    (m : Memory) (start : ℕ) (found : List NsRange)
    → ((x : ℕ) → x < length found → read_range m (start + x) ≡ get_or found x nowhere)
    → copy_ranges m start (length found) ≡ found
unfolding copy_ranges
copy_ranges-found m start [] same = refl
copy_ranges-found m start (r ∷ found) same =
    let first : read_range m start ≡ r = rw (← start_zero start) (same 0 (omega arith)) in
    let others : copy_ranges m (suc start) (length found) ≡ found =
      copy_ranges-found m (suc start) found
        (λ x lt. rw (← start_suc start x) (same (suc x) (omega (arith, lt)))) in
    rw (first, others) refl

-- Where the private method answers no match.
pub documented-none :
    (c : MatchCall) (n : ℕ) (m : Memory) (error : Bool) (capture : ℕ) (ranges : List NsRange)
    → c.no_stack ≡ false
    → capture < c.captures
    → ask c ≡ ok (failed n, m, error)
    → MatchingDocumented matching_methods c (failed n) none (pcre_error error) capture ranges
unfolding range_answer ranges_answer copy_answer equal_ranges
documented-none c n m error capture ranges stack lt e =
    asked-documented c (failed n) m error none capture ranges stack lt e refl refl refl refl refl

-- Where the private method raises.
pub asked-raise :
    (c : MatchCall) (exception : Exception) (capture : ℕ) (ranges : List NsRange)
    → c.no_stack ≡ false
    → capture < c.captures
    → ask c ≡ raise exception
    → MatchingRefused matching_methods c exception capture ranges
unfolding matching_methods range_for_characters_error range_for_characters matches_characters
    matches_characters_error ranges_for_characters_error ranges_for_characters get_ranges_error
    get_ranges_raising
asked-raise c exception capture ranges stack lt asked =
    let below : leb c.captures capture ≡ false = ground (arith, lt) in
    let some_captures : leb c.captures 0 ≡ false = ground (arith, lt) in
    record {
      matches = rw (asked, stack, some_captures) refl;
      matches_error = rw (asked, stack, some_captures) refl;
      range = rw (asked, stack, below) refl;
      range_error = rw (asked, stack, below) refl;
      all = rw (asked, stack) refl;
      all_error = rw (asked, stack) refl;
      low_level = rw (asked, stack) refl;
      low_level_error = rw (asked, stack) refl;
    }
