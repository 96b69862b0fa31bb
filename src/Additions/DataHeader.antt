-- ===== src/Additions/DataHeader.antt =====
-- Source/Headers/RegexKit/NSData.h: the additions to `NSData`, with what the header documents.
use regexkit.Base.{ℕ, ◌≡◌, Bool, Option, none, some, List, [], take, drop, get_or, Outcome, ok}
use regexkit.Foundation.{NsRange}
use regexkit.Regex.Matching.{nowhere}
use regexkit.Regex.Header.{range_in, is_match}
use regexkit.Additions.{RegexArgument}
use regexkit.Additions.Data.{DataObject}

-- `NSData (RegexKitAdditions)`
pub record NsDataAdditions (R : Type 0) : Type 0 where
  pub is_matched_by_regex : DataObject → RegexArgument R → Outcome Bool
  pub is_matched_by_regex_in_range : DataObject → RegexArgument R → NsRange → Outcome Bool
  pub range_of_regex : DataObject → RegexArgument R → Outcome NsRange
  pub range_of_regex_in_range : DataObject → RegexArgument R → NsRange → ℕ → Outcome NsRange
  pub ranges_of_regex : DataObject → RegexArgument R → Outcome (Option (List NsRange))
  pub ranges_of_regex_in_range :
      DataObject → RegexArgument R → NsRange → Outcome (Option (List NsRange))
  pub subdata_by_matching : DataObject → RegexArgument R → Outcome (List ℕ)
  pub subdata_by_matching_in_range : DataObject → RegexArgument R → NsRange → Outcome (List ℕ)

-- The bytes of the first range.
abbrev pub bytes_of_match : List ℕ → Option (List NsRange) → List ℕ
bytes_of_match bytes none = []
bytes_of_match bytes (some found) =
    let r = get_or found 0 nowhere in take r.length (drop r.location bytes)

-- The answers for the match in all of the data, and the one within a range.
pub record NsDataDocumented {R : Type 0} (ops : NsDataAdditions R) (d : DataObject)
    (a : RegexArgument R) (range : NsRange) (capture : ℕ) (all part : Option (List NsRange))
    : Type 0 where
  -- "whether the receiver is matched by aRegex", and "within range"
  pub is_matched : ops.is_matched_by_regex d a ≡ ok (is_match all)
  pub is_matched_in_range : ops.is_matched_by_regex_in_range d a range ≡ ok (is_match part)
  -- "the range of the first occurrence", or "{NSNotFound, 0} if the receiver is not matched"
  pub range_of : ops.range_of_regex d a ≡ ok (range_in all 0)
  pub range_of_in_range : ops.range_of_regex_in_range d a range capture ≡ ok (range_in part capture)
  -- "an array of NSRange structures of the capture subpatterns", or "NULL"
  pub ranges_of : ops.ranges_of_regex d a ≡ ok all
  pub ranges_of_in_range : ops.ranges_of_regex_in_range d a range ≡ ok part
  -- "a NSData that contains the bytes of the first match"
  pub subdata : ops.subdata_by_matching d a ≡ ok (bytes_of_match d.bytes all)
  pub subdata_in_range :
      ops.subdata_by_matching_in_range d a range ≡ ok (bytes_of_match d.bytes part)
