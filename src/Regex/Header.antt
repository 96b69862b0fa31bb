-- ===== src/Regex/Header.antt =====
-- "Matching Regular Expressions" of Source/Headers/RegexKit/RKRegex.h: the methods of a regex, with
-- what the header documents of them.
use regexkit.Base.{
  ℕ, ◌≡◌, Bool, true, false, Option, none, some, List, ◌++◌, drop, get_or, Outcome, ok, raise,
  Exception, invalid_argument,
}
use regexkit.Foundation.{NsRange}
use regexkit.Regex.{MatchCode}
use regexkit.Regex.Matching.{MatchCall, ErrorDomain, regexkit_domain, nowhere}

pub record MatchingMethods : Type 0 where
  pub matches_characters : MatchCall → Outcome Bool
  pub matches_characters_error : MatchCall → Outcome (Bool × Option ErrorDomain)
  pub range_for_characters : MatchCall → ℕ → Outcome NsRange
  pub range_for_characters_error : MatchCall → ℕ → Outcome (NsRange × Option ErrorDomain)
  pub ranges_for_characters : MatchCall → Outcome (Option (List NsRange))
  pub ranges_for_characters_error : MatchCall → Outcome (Option (List NsRange) × Option ErrorDomain)
  pub get_ranges : MatchCall → Option (List NsRange) → Outcome (MatchCode × List NsRange)
  pub get_ranges_error :
      MatchCall → Option (List NsRange) → Outcome ((MatchCode × List NsRange) × Option ErrorDomain)

-- The range of a capture, `{NSNotFound, 0}` where there is no match.
abbrev pub range_in : Option (List NsRange) → ℕ → NsRange
range_in none capture = nowhere
range_in (some found) capture = get_or found capture nowhere

abbrev pub is_match : Option (List NsRange) → Bool
is_match none = false
is_match (some found) = true

-- "The values in ranges are only modified on a successful match": then the first `captures` are.
abbrev pub modified : ℕ → Option (List NsRange) → List NsRange → List NsRange
modified captures none ranges = ranges
modified captures (some found) ranges = found ++ drop captures ranges

-- The answers for the ranges of a match, or none. "YES if the receiver matches", "the location and
-- length of captureIndex", or "{NSNotFound, 0} if the receiver does not match", an array of
-- `captureCount` ranges, or "NULL if the receiver does not match", and the number of captures or the
-- code of a failure.
pub record MatchingDocumented (ops : MatchingMethods) (c : MatchCall) (code : MatchCode)
    (answer : Option (List NsRange)) (error : Option ErrorDomain) (capture : ℕ)
    (ranges : List NsRange) : Type 0 where
  pub matches : ops.matches_characters c ≡ ok (is_match answer)
  pub matches_error : ops.matches_characters_error c ≡ ok (is_match answer, error)
  pub range : ops.range_for_characters c capture ≡ ok (range_in answer capture)
  pub range_error : ops.range_for_characters_error c capture ≡ ok (range_in answer capture, error)
  pub all : ops.ranges_for_characters c ≡ ok answer
  pub all_error : ops.ranges_for_characters_error c ≡ ok (answer, error)
  pub low_level : ops.get_ranges c (some ranges) ≡ ok (code, modified c.captures answer ranges)
  pub low_level_error :
      ops.get_ranges_error c (some ranges) ≡ ok ((code, modified c.captures answer ranges), error)

-- "Raises a NSInvalidArgumentException if matchCharacters is NULL", "a NSRangeException if any part
-- of searchRange lies beyond the end": all methods for arguments that make one of them raise.
pub record MatchingRefused (ops : MatchingMethods) (c : MatchCall) (exception : Exception)
    (capture : ℕ) (ranges : List NsRange) : Type 0 where
  pub matches : ops.matches_characters c ≡ raise exception
  pub matches_error : ops.matches_characters_error c ≡ raise exception
  pub range : ops.range_for_characters c capture ≡ raise exception
  pub range_error : ops.range_for_characters_error c capture ≡ raise exception
  pub all : ops.ranges_for_characters c ≡ raise exception
  pub all_error : ops.ranges_for_characters_error c ≡ raise exception
  pub low_level : ops.get_ranges c (some ranges) ≡ raise exception
  pub low_level_error : ops.get_ranges_error c (some ranges) ≡ raise exception

-- "Raises a NSInvalidArgumentException if captureIndex is not valid", where the form with an error
-- hands one out, and "if ranges […] is NULL", where both forms raise.
pub record InvalidRefused (ops : MatchingMethods) (c : MatchCall) (capture : ℕ) : Type 0 where
  pub range : ops.range_for_characters c capture ≡ raise invalid_argument
  pub range_error : ops.range_for_characters_error c capture ≡ ok (nowhere, some regexkit_domain)
  pub low_level : ops.get_ranges c none ≡ raise invalid_argument
  pub low_level_error : ops.get_ranges_error c none ≡ raise invalid_argument
