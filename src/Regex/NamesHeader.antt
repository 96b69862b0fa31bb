-- ===== src/Regex/NamesHeader.antt =====
-- "Named Capture Information" of Source/Headers/RegexKit/RKRegex.h: the methods, with what the header
-- documents of them.
use regexkit.Base.{
  ℕ, ◌<◌, ◌≡◌, Bool, true, false, not, Option, none, some, List, length, Outcome, ok, raise,
  invalid_argument, capture_reference,
}
use regexkit.Foundation.{NsRange}
use regexkit.Regex.Names.{name_at}
use regexkit.Regex.CaptureNames.{RegexInfo, index_at}

pub record NameMethods : Type 0 where
  pub is_valid_capture_name : RegexInfo → Option (List ℕ) → Outcome Bool
  pub is_valid_capture_name_error : RegexInfo → Option (List ℕ) → Outcome (Bool × Bool)
  pub capture_index_for_capture_name : RegexInfo → Option (List ℕ) → Outcome (Option ℕ)
  pub capture_index_for_capture_name_error : RegexInfo → Option (List ℕ) → Outcome (Option ℕ × Bool)
  pub capture_name_for_capture_index : RegexInfo → ℕ → Outcome (Option (List ℕ))
  pub capture_name_for_capture_index_error : RegexInfo → ℕ → Outcome (Option (List ℕ) × Bool)
  pub capture_index_in_ranges :
      RegexInfo → Option (List ℕ) → Option (List NsRange) → Outcome (Option ℕ)
  pub capture_index_in_ranges_error :
      RegexInfo → Option (List ℕ) → Option (List NsRange) → Outcome (Option ℕ × Bool)

-- The form that raises where the other one hands out an error.
abbrev pub raising : Option ℕ → Bool → Outcome (Option ℕ)
raising answer true = raise capture_reference
raising answer false = ok answer

-- The methods for a name: `index` is that of a capture with the name, `answer` that of "the first
-- successful match", and `error` says whether the name "is not a valid capture name".
pub record NameDocumented (ops : NameMethods) (r : RegexInfo) (key : List ℕ) (ranges : List NsRange)
    (index answer : Option ℕ) (error : Bool) : Type 0 where
  pub valid : ops.is_valid_capture_name r (some key) ≡ ok (not error)
  pub valid_error : ops.is_valid_capture_name_error r (some key) ≡ ok (not error, error)
  pub whole : ops.capture_index_for_capture_name r (some key) ≡ raising index error
  pub whole_error : ops.capture_index_for_capture_name_error r (some key) ≡ ok (index, error)
  pub in_ranges : ops.capture_index_in_ranges r (some key) (some ranges) ≡ raising answer error
  pub in_ranges_error :
      ops.capture_index_in_ranges_error r (some key) (some ranges) ≡ ok (answer, error)

-- An index is that of a capture with the name, or there is none and the name is not valid.
pub data IsNamed (r : RegexInfo) (key : List ℕ) : Option ℕ → Bool → Type 0 where
  named :
      (x : ℕ)
      → x < length r.capture_name_table
      → name_at r.capture_name_table x ≡ key
      → IsNamed r key (some (index_at r.capture_name_table x)) false
  unnamed : IsNamed r key none true

-- "Raises a NSInvalidArgumentException if captureNameString is nil", "if matchedRanges is NULL", and
-- for the name of a capture "if captureIndex is not valid".
pub record NullRefused (ops : NameMethods) (r : RegexInfo) (key : List ℕ) (ranges : List NsRange)
    : Type 0 where
  pub valid : ops.is_valid_capture_name r none ≡ raise invalid_argument
  pub valid_error : ops.is_valid_capture_name_error r none ≡ raise invalid_argument
  pub whole : ops.capture_index_for_capture_name r none ≡ raise invalid_argument
  pub whole_error : ops.capture_index_for_capture_name_error r none ≡ raise invalid_argument
  pub no_name : ops.capture_index_in_ranges r none (some ranges) ≡ raise invalid_argument
  pub no_name_error :
      ops.capture_index_in_ranges_error r none (some ranges) ≡ raise invalid_argument
  pub no_ranges : ops.capture_index_in_ranges r (some key) none ≡ raise invalid_argument
  pub no_ranges_error : ops.capture_index_in_ranges_error r (some key) none ≡ raise invalid_argument
  pub too_high : ops.capture_name_for_capture_index r r.capture_count ≡ raise invalid_argument
  pub too_high_error : ops.capture_name_for_capture_index_error r r.capture_count ≡ ok (none, true)
