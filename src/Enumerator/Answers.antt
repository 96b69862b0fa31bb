-- ===== src/Enumerator/Answers.antt =====
-- What an enumeration needs of a regex: `captureCount`, and `getRanges:…` on the characters of the
-- string, which answers the ranges of a match within a range of bytes, or `none`; and the names of
-- its captures.
use regexkit.Base.{ℕ, Bool, Option, List, Outcome}
use regexkit.Foundation.{NsRange}

pub record Matcher : Type 0 where
  pub capture_count : ℕ
  pub get_ranges : NsRange → Option (List NsRange)

-- `isValidCaptureName:` and `captureIndexForCaptureName:inMatchedRanges:`; a name is its bytes.
pub record CaptureNames : Type 0 where
  pub is_valid : List ℕ → Bool
  pub index_for : List ℕ → List NsRange → Outcome ℕ
