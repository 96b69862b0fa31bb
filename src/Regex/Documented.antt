-- ===== src/Regex/Documented.antt =====
-- The matching methods of Source/RKRegex.m do what the header documents of them.
use regexkit.Base.{
  ℕ, ◌+◌, ◌-◌, ◌<◌, ◌≤◌, ◌^◌, ◌≡◌, refl, sym, ap, ◌∙◌, arith, ltb, leb, ◌==◌, true, false, not,
  ◌&&◌, Option, some, none, List, get_or, length, raise, Exception, invalid_argument,
  range_exception,
}
use regexkit.Foundation.{NsRange, make_range, max_range}
use regexkit.RangeMacros.{range_inside_range, equal_ranges}
use regexkit.RangeMacros.Bounds.{range_inside_range-Inside}
use regexkit.Regex.{
  Memory, MatchCode, results, failed, read_range, is_out_of_range, minus_one, extend, after_exec,
  get_ranges,
}
use regexkit.Regex.Conversion.{
  unset, set, IsCapture, answered, unanswered, final_memory, final-range, get_ranges-final,
}
use regexkit.Regex.Matching.{
  MatchCall, ErrorDomain, nowhere, pcre_error, ask, raise_unless_pcre, range_answer,
  range_for_characters_error, range_for_characters, copy_ranges, ranges_answer, copy_answer,
  get_ranges_error, get_ranges_raising,
}
use regexkit.Regex.Asked.{
  matching_methods, asked-documented, copy_ranges-found, documented-none, asked-raise, zero_start,
}
use regexkit.Regex.Header.{MatchingDocumented, MatchingRefused, InvalidRefused}

-- The arguments are as the header asks for, and the memory can be had.
pub record IsProper (c : MatchCall) : Type 0 where
  pub stack : c.no_stack ≡ false
  pub memory : c.no_memory ≡ false
  pub characters : c.no_characters ≡ false
  pub inside : is_out_of_range c.length c.search ≡ false

-- What pcre says of a match within the range, with the ranges of all captures.
pub record IsMatch (c : MatchCall) (k : ℕ) (out : Memory) (found : List NsRange) : Type 0 where
  pub counted : 0 < k
  pub starts : c.search.location ≤ out 0
  pub ordered : out 0 ≤ out 1
  pub ends : out 1 ≤ max_range c.search
  pub small : out 1 < 2 ^ 31
  pub complete : length found ≡ c.captures
  pub captured : (x : ℕ) → x < c.captures → IsCapture k out x (get_or found x nowhere)

-- The three ways in which pcre may answer, with the code, the ranges and the error that the methods
-- shall make of it: a match in the range, a match that ends behind it, or a code of failure.
pub data IsAnswered (c : MatchCall)
    : MatchCode → Option (List NsRange) → Option ErrorDomain → Type 0 where
  matched :
      (k : ℕ) (out : Memory) (found : List NsRange)
      → c.exec c.length c.search.location c.stack ≡ (results k, out)
      → IsMatch c k out found
      → IsAnswered c (results k) (some found) none
  beyond :
      (k : ℕ) (out : Memory)
      → c.exec c.length c.search.location c.stack ≡ (results k, out)
      → max_range c.search < out 1
      → out 1 < 2 ^ 31
      → IsAnswered c (failed 1) none none
  unmatched :
      (n : ℕ) (out : Memory)
      → c.exec c.length c.search.location c.stack ≡ (failed n, out)
      → IsAnswered c (failed n) none (pcre_error (ltb 1 n))

range_of_match :
    (k : ℕ) (out : Memory) (r : NsRange)
    → 0 < k
    → out 0 ≤ out 1
    → out 1 < 2 ^ 31
    → IsCapture k out 0 r
    → r ≡ make_range (out 0) (out 1 - out 0)
range_of_match k out r pos le small (answered lt (unset e f)) = absurd (omega (arith, e, le, small))
range_of_match k out r pos le small (answered lt (set a b e)) = e
range_of_match k out r pos le small (unanswered lt e) = absurd (omega (arith, lt, pos))

match_inside :
    (c : MatchCall) (k : ℕ) (out : Memory) (found : List NsRange)
    → is_out_of_range c.length c.search ≡ false
    → IsMatch c k out found
    → range_inside_range (make_range (out 0) (out 1 - out 0)) c.search ≡ true
match_inside c k out found inside v =
    (range_inside_range-Inside _ c.search (ground (arith, v.ordered, v.small))
        (ground (arith, inside))).1
      (v.starts, ground (arith, inside, v.ordered, v.ends))

documented-matched :
    (c : MatchCall) (k : ℕ) (out : Memory) (found : List NsRange) (capture : ℕ)
    (ranges : List NsRange)
    → IsProper c
    → capture < c.captures
    → c.exec c.length c.search.location c.stack ≡ (results k, out)
    → IsMatch c k out found
    → MatchingDocumented matching_methods c (results k) (some found) none capture ranges
unfolding ask range_answer ranges_answer copy_answer equal_ranges
documented-matched c k out found capture ranges p lt e v =
    let m = final_memory c.captures k out in
    let range : (x : ℕ) → x < c.captures → read_range m x ≡ get_or found x nowhere =
      λ x low. final-range c.captures k out x _ low (v.captured x low) in
    let copied : copy_ranges m 0 c.captures ≡ found =
      ap (λ n. copy_ranges m 0 n) (sym v.complete)
      ∙ copy_ranges-found m 0 found
          (λ x low. rw (zero_start x) (range x (rw (← v.complete) low))) in
    let whole : get_or found 0 nowhere ≡ make_range (out 0) (out 1 - out 0) =
      range_of_match k out _ v.counted v.ordered v.small (v.captured 0 (omega (arith, lt))) in
    let within : range_inside_range (read_range m 0) c.search ≡ true =
      rw (range 0 (omega (arith, lt)), whole) (match_inside c k out found p.inside v) in
    asked-documented c (results k) m false (some found) capture ranges p.stack lt
      (rw p.characters (
        get_ranges-final c.exec c.captures k c.length c.stack out c.search p.inside e v.ends
          v.small))
      (rw (within, range capture lt) refl) (rw (within, range 0 (omega (arith, lt))) refl)
      (rw whole (ground (arith, v.ordered, v.small))) (rw (p.memory, copied) refl) (rw copied refl)

-- For proper arguments and a capture of the regex, all matching methods answer for what pcre says:
-- for a match within the search range they find it and hand out the range of each capture; for a
-- match that ends behind the search range, for no match and for a failure of pcre they find nothing,
-- leave the caller's ranges as they are, and the failure is handed out as an error but not raised.
pub matching_methods-documented :
    (c : MatchCall) (code : MatchCode) (answer : Option (List NsRange)) (error : Option ErrorDomain)
    (capture : ℕ) (ranges : List NsRange)
    → IsProper c
    → capture < c.captures
    → IsAnswered c code answer error
    → MatchingDocumented matching_methods c code answer error capture ranges
unfolding ask get_ranges after_exec
matching_methods-documented c code answer error capture ranges p lt (matched k out found e v) =
    documented-matched c k out found capture ranges p lt e v
matching_methods-documented c code answer error capture ranges p lt (beyond k out e late small) =
    let behind : (not (out 1 == minus_one) && ltb (max_range c.search) (extend (out 1))) ≡ true =
      ground (arith, late, small) in
    documented-none c 1 out false capture ranges p.stack lt
      (rw (p.characters, p.inside, e, behind) refl)
matching_methods-documented c code answer error capture ranges p lt (unmatched n out e) =
    documented-none c n out (ltb 1 n) capture ranges p.stack lt
      (rw (p.characters, p.inside, e) refl)

-- Arguments that the header refuses, with the exception that it names.
pub data IsRefused (c : MatchCall) : Exception → Type 0 where
  missing : c.no_characters ≡ true → IsRefused c invalid_argument
  outside :
      c.no_characters ≡ false
      → is_out_of_range c.length c.search ≡ true
      → IsRefused c range_exception

ask-raise :
    (c : MatchCall) (exception : Exception) → IsRefused c exception → ask c ≡ raise exception
unfolding ask get_ranges
ask-raise c exception (missing e) = rw e refl
ask-raise c exception (outside e f) = rw (e, f) refl

-- With the characters `NULL`, all matching methods raise for the invalid argument, and with a search
-- range that is not within the characters, for the range, in both forms and whatever pcre does. In a
-- call `d` with any characters and any range, for a number `high` that is no capture of the regex the
-- method for one range hands out an error or raises for it, and `NULL` as the memory for the ranges
-- is refused. The buffer for the captures can be had on the stack in both calls.
pub matching_methods-refused :
    (c d : MatchCall) (exception : Exception) (capture high : ℕ) (ranges : List NsRange)
    → c.no_stack ≡ false
    → capture < c.captures
    → IsRefused c exception
    → d.no_stack ≡ false
    → d.captures ≤ high
    → MatchingRefused matching_methods c exception capture ranges
      × InvalidRefused matching_methods d high
unfolding matching_methods range_for_characters_error range_for_characters get_ranges_error
    get_ranges_raising raise_unless_pcre
matching_methods-refused c d exception capture high ranges stack lt refused room le =
    let above : leb d.captures high ≡ true = ground (arith, le) in
    (
      asked-raise c exception capture ranges stack lt (ask-raise c exception refused),
      record {
        range = rw (room, above) refl;
        range_error = rw (room, above) refl;
        low_level = refl;
        low_level_error = refl;
      },
    )

-- The whole range of a match lies within the characters.
pub data IsWithin (n : ℕ) : Option (List NsRange) → Type 0 where
  nothing_found : IsWithin n none
  found_within :
      (found : List NsRange)
      → (get_or found 0 nowhere).location + (get_or found 0 nowhere).length ≤ n
      → (get_or found 0 nowhere).location < 2 ^ 31
      → IsWithin n (some found)

pub answer-IsWithin :
    (c : MatchCall) (code : MatchCode) (answer : Option (List NsRange)) (error : Option ErrorDomain)
    → IsProper c
    → 0 < c.captures
    → IsAnswered c code answer error
    → IsWithin c.length answer
answer-IsWithin c code answer error p pos (matched k out found e v) =
    let whole : get_or found 0 nowhere ≡ make_range (out 0) (out 1 - out 0) =
      range_of_match k out _ v.counted v.ordered v.small (v.captured 0 pos) in
    found_within found (rw whole (ground (arith, p.inside, v.ordered, v.ends)))
      (rw whole (ground (arith, v.ordered, v.small)))
answer-IsWithin c code answer error p pos (beyond k out e late small) = nothing_found
answer-IsWithin c code answer error p pos (unmatched n out e) = nothing_found
