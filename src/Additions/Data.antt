-- ===== src/Additions/Data.antt =====
-- Source/NSData.m: the additions to `NSData`.
use regexkit.Base.{
  ℕ, ◌+◌, ltb, if◌then◌else◌, Bool, Option, List, [], length, take, drop, Outcome, ok, raise, ◌>>=◌,
  range_exception,
}
use regexkit.Foundation.{NsRange, make_range}
use regexkit.RangeMacros.{equal_ranges}
use regexkit.Regex.Matching.{
  nowhere, matches_characters, range_for_characters, ranges_for_characters,
}
use regexkit.Additions.{Regexes, RegexArgument, Resources, match_call, from_string_or_regex}

-- An `NSData`, whose pointer to its bytes may be `NULL` where it has none.
pub record DataObject : Type 0 where
  pub bytes : List ℕ
  pub no_bytes : Bool

-- `subdataWithRange:` of Foundation
unfoldable pub subdata_with_range : List ℕ → NsRange → Outcome (List ℕ)
subdata_with_range bytes r =
    if ltb (length bytes) (r.location + r.length)
    then raise range_exception
    else ok (take r.length (drop r.location bytes))

-- Behind the match of the two methods for the bytes of a match.
unfoldable pub subdata_answer : List ℕ → NsRange → Outcome (List ℕ)
subdata_answer bytes r = if equal_ranges nowhere r then ok [] else subdata_with_range bytes r

abbrev pub whole : DataObject → NsRange
whole d = make_range 0 (length d.bytes)

module _ (W : Regexes) (resources : Resources) where
  open W use {Regex}

  unfoldable pub is_matched_by_regex_in_range :
      DataObject → RegexArgument Regex → NsRange → Outcome Bool
  is_matched_by_regex_in_range d a range = from_string_or_regex W a 0 >>= λ r.
      matches_characters (match_call W r 0 resources d.no_bytes d.bytes range)

  unfoldable pub is_matched_by_regex : DataObject → RegexArgument Regex → Outcome Bool
  is_matched_by_regex d a = from_string_or_regex W a 0 >>= λ r.
      matches_characters (match_call W r 0 resources d.no_bytes d.bytes (whole d))

  unfoldable pub range_of_regex_in_range :
      DataObject → RegexArgument Regex → NsRange → ℕ → Outcome NsRange
  range_of_regex_in_range d a range capture = from_string_or_regex W a 0 >>= λ r.
      range_for_characters (match_call W r 0 resources d.no_bytes d.bytes range) capture

  unfoldable pub range_of_regex : DataObject → RegexArgument Regex → Outcome NsRange
  range_of_regex d a = from_string_or_regex W a 0 >>= λ r.
      range_for_characters (match_call W r 0 resources d.no_bytes d.bytes (whole d)) 0

  unfoldable pub ranges_of_regex_in_range :
      DataObject → RegexArgument Regex → NsRange → Outcome (Option (List NsRange))
  ranges_of_regex_in_range d a range = from_string_or_regex W a 0 >>= λ r.
      ranges_for_characters (match_call W r 0 resources d.no_bytes d.bytes range)

  unfoldable pub ranges_of_regex :
      DataObject → RegexArgument Regex → Outcome (Option (List NsRange))
  ranges_of_regex d a = from_string_or_regex W a 0 >>= λ r.
      ranges_for_characters (match_call W r 0 resources d.no_bytes d.bytes (whole d))

  unfoldable pub subdata_by_matching_in_range :
      DataObject → RegexArgument Regex → NsRange → Outcome (List ℕ)
  subdata_by_matching_in_range d a range =
      (from_string_or_regex W a 0 >>= λ r.
      range_for_characters (match_call W r 0 resources d.no_bytes d.bytes range) 0)
      >>= subdata_answer d.bytes

  unfoldable pub subdata_by_matching : DataObject → RegexArgument Regex → Outcome (List ℕ)
  subdata_by_matching d a =
      (from_string_or_regex W a 0 >>= λ r.
      range_for_characters (match_call W r 0 resources d.no_bytes d.bytes (whole d)) 0)
      >>= subdata_answer d.bytes
