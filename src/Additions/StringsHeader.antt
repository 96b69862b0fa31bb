-- ===== src/Additions/StringsHeader.antt =====
-- Source/Headers/RegexKit/NSString.h, "Determining the Range of a Match" and "Identifying Matches":
-- the methods with what the header documents of them.
use regexkit.Base.{ℕ, ◌≡◌, Bool, Option, List, Outcome, ok}
use regexkit.Foundation.{NsRange, StringBuffer}
use regexkit.Regex.Matching.{ErrorDomain}
use regexkit.Regex.Header.{range_in, is_match}
use regexkit.Additions.{RegexArgument}

-- "Determining the Range of a Match"
pub record RangeMethods (R : Type 0) : Type 0 where
  pub ranges_of_regex : StringBuffer → RegexArgument R → Outcome (Option (List NsRange))
  pub ranges_of_regex_error :
      StringBuffer → RegexArgument R → Outcome (Option (List NsRange) × Option ErrorDomain)
  pub ranges_of_regex_in_range :
      StringBuffer → RegexArgument R → NsRange → Outcome (Option (List NsRange))
  pub ranges_of_regex_in_range_error :
      StringBuffer
      → RegexArgument R
      → NsRange
      → Outcome (Option (List NsRange) × Option ErrorDomain)
  pub range_of_regex : StringBuffer → RegexArgument R → Outcome NsRange
  pub range_of_regex_error : StringBuffer → RegexArgument R → Outcome (NsRange × Option ErrorDomain)
  pub range_of_regex_in_range : StringBuffer → RegexArgument R → NsRange → ℕ → Outcome NsRange
  pub range_of_regex_in_range_error :
      StringBuffer → RegexArgument R → NsRange → ℕ → Outcome (NsRange × Option ErrorDomain)

-- "Identifying Matches"
pub record MatchMethods (R : Type 0) : Type 0 where
  pub is_matched_by_regex : StringBuffer → RegexArgument R → Outcome Bool
  pub is_matched_by_regex_error :
      StringBuffer → RegexArgument R → Outcome (Bool × Option ErrorDomain)
  pub is_matched_by_regex_in_range : StringBuffer → RegexArgument R → NsRange → Outcome Bool
  pub is_matched_by_regex_in_range_error :
      StringBuffer → RegexArgument R → NsRange → Outcome (Bool × Option ErrorDomain)

-- The answers for the match in all of the string, and the one within a range, in code units.
pub record RangeDocumented {R : Type 0} (ops : RangeMethods R) (b : StringBuffer)
    (a : RegexArgument R) (range : NsRange) (capture : ℕ) (all part : Option (List NsRange))
    (error part_error : Option ErrorDomain) : Type 0 where
  -- "an array of NSRange structures of the capture subpatterns of aRegex for the first match in the
  -- receiver", or "NULL if aRegex does not match"
  pub ranges_of : ops.ranges_of_regex b a ≡ ok all
  pub ranges_of_error : ops.ranges_of_regex_error b a ≡ ok (all, error)
  pub ranges_in_range : ops.ranges_of_regex_in_range b a range ≡ ok part
  pub ranges_in_range_error : ops.ranges_of_regex_in_range_error b a range ≡ ok (part, part_error)
  -- "the range of the first occurrence within the receiver", "the range of aRegex capture number
  -- capture for the first match within range", or "{NSNotFound, 0} if the receiver is not matched"
  pub range_of : ops.range_of_regex b a ≡ ok (range_in all 0)
  pub range_of_error : ops.range_of_regex_error b a ≡ ok (range_in all 0, error)
  pub range_in_range : ops.range_of_regex_in_range b a range capture ≡ ok (range_in part capture)
  pub range_in_range_error :
      ops.range_of_regex_in_range_error b a range capture ≡ ok (range_in part capture, part_error)

-- "whether the receiver is matched by aRegex", and "within range".
pub record MatchDocumented {R : Type 0} (ops : MatchMethods R) (b : StringBuffer)
    (a : RegexArgument R) (range : NsRange) (all part : Option (List NsRange))
    (error part_error : Option ErrorDomain) : Type 0 where
  pub is_matched : ops.is_matched_by_regex b a ≡ ok (is_match all)
  pub is_matched_error : ops.is_matched_by_regex_error b a ≡ ok (is_match all, error)
  pub is_matched_in_range : ops.is_matched_by_regex_in_range b a range ≡ ok (is_match part)
  pub is_matched_in_range_error :
      ops.is_matched_by_regex_in_range_error b a range ≡ ok (is_match part, part_error)
