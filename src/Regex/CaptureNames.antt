-- ===== src/Regex/CaptureNames.antt =====
-- `RKCaptureIndexForCaptureNameCharactersWithError` of Source/RKRegex.m behind `validName`: the choice
-- among the entries of the table that have the name, and the methods that ask for it.
use regexkit.Base.{
  ℕ, zero, suc, ◌-◌, ◌==◌, leb, Bool, true, false, not, ◌&&◌, ◌||◌, if◌then◌else◌, Option, some,
  none, List, [], ◌∷◌, get_or, length, Outcome, ok, raise, ◌>>=◌, invalid_argument,
  capture_reference,
}
use Prim.Native.Nat.{lt, eq, gt}
use regexkit.Foundation.{NsRange, make_range, not_found}
use regexkit.Regex.Names.{no_entry, entry_index, NameEntry, name_at, compare_names, find_name}

-- The instance variables that the methods read. `jchanged` is what `pcre_fullinfo` answers for
-- PCRE_INFO_JCHANGED; an entry of the array is `none` where it is the object `NSNull`.
pub record RegexInfo : Type 0 where
  pub compiled_regex_string : List ℕ
  pub compile_option : ℕ
  pub dup_names : Bool  -- whether the option has the flag RKCompileDupNames
  pub capture_count : ℕ
  pub capture_name_table : List NameEntry
  pub capture_name_length : ℕ
  pub capture_name_array : Option (List (Option (List ℕ)))
  pub jchanged : Bool

abbrev pub index_at : List NameEntry → ℕ → ℕ
index_at table i = entry_index (get_or table i no_entry)

-- Whether an answer is not `NSNotFound`.
abbrev pub is_found : Option ℕ → Bool
is_found none = false
is_found (some index) = true

-- Whether the name of an entry is that asked for.
unfoldable pub has_name : List NameEntry → List ℕ → ℕ → Bool
has_name table key i = elim (compare_names key (name_at table i)) [
  | lt ↦ false
  | eq ↦ true
  | gt ↦ false
]

-- Whether `matchedRanges[index].location != NSNotFound` for the index of an entry.
unfoldable pub is_matched : List NameEntry → List NsRange → ℕ → Bool
is_matched table ranges i =
    not ((get_or ranges (index_at table i) (make_range not_found 0)).location == not_found)

-- Whether `strncmp` finds the characters asked for at the start of a name.
unfoldable pub is_prefix : List ℕ → List ℕ → Bool
is_prefix [] name = true
is_prefix (k ∷ key) [] = false
is_prefix (k ∷ key) (x ∷ name) = (k == x) && is_prefix key name

-- The loop from `searchMiddle` down without ranges: the index, and `at` for the loop that gets to the
-- start of the table, which leaves it as the search found it.
unfoldable pub first_of_name : List NameEntry → List ℕ → ℕ → ℕ → ℕ
first_of_name table key found zero = index_at table found
first_of_name table key found (suc x) =
    if is_prefix key (name_at table x)
    then first_of_name table key found x
    else index_at table (suc x)

-- The loop down with ranges: `lowestCaptureIndex`.
unfoldable pub walk_down : List NameEntry → List ℕ → List NsRange → ℕ → Option ℕ → Option ℕ
walk_down table key ranges zero lowest = lowest
walk_down table key ranges (suc x) lowest =
    if has_name table key x
    then walk_down table key ranges x
        (if is_matched table ranges x then some (index_at table x) else lowest)
    else lowest

-- The loop up: `n` entries are left above entry `x`.
unfoldable pub walk_up : List NameEntry → List ℕ → List NsRange → ℕ → ℕ → Option ℕ
walk_up table key ranges x zero = none
walk_up table key ranges x (suc n) =
    if has_name table key (suc x)
    then if is_matched table ranges (suc x)
      then some (index_at table (suc x))
      else walk_up table key ranges (suc x) n
    else none

-- Where names may repeat, with ranges: behind both loops.
unfoldable pub choose : List NameEntry → List ℕ → List NsRange → ℕ → Option ℕ
choose table key ranges x =
    let lowest =
      walk_down table key ranges x
        (if is_matched table ranges x then some (index_at table x) else none) in
    elim lowest [
      | some index ↦ some index
      | none ↦ walk_up table key ranges x (length table - suc x)
    ]

-- From `validName` on, for the entry `x`; `ranges` is `none` for `NULL`, and the answer `none` is
-- `NSNotFound`.
unfoldable pub valid_name : RegexInfo → List ℕ → Option (List NsRange) → ℕ → Option ℕ
valid_name r key none x =
    if r.jchanged || r.dup_names
    then some (first_of_name r.capture_name_table key x x)
    else some (index_at r.capture_name_table x)
valid_name r key (some ranges) x =
    if r.jchanged || r.dup_names
    then choose r.capture_name_table key ranges x
    else if is_matched r.capture_name_table ranges x
    then some (index_at r.capture_name_table x)
    else none

-- Behind the search: the index, and whether there is an `NSError`.
unfoldable pub index_answer :
    RegexInfo → List ℕ → Option (List NsRange) → Option ℕ → Option ℕ × Bool
index_answer r key ranges none = (none, true)
index_answer r key ranges (some x) = (valid_name r key ranges x, false)

-- The function.
unfoldable pub capture_index_with_error :
    RegexInfo → List ℕ → Option (List NsRange) → Outcome (Option ℕ × Bool)
capture_index_with_error r key ranges =
    find_name r.capture_name_table r.capture_name_length key >>= λ x.
    ok (index_answer r key ranges x)

-- `RKCaptureIndexForCaptureNameCharacters`
unfoldable pub capture_index :
    RegexInfo → List ℕ → Option (List NsRange) → Bool → Outcome (Option ℕ)
capture_index r key ranges raise_exception = capture_index_with_error r key ranges >>= λ (x, error).
    if error && raise_exception then raise capture_reference else ok x

-- The methods. A name `none` is `NULL`, and so are ranges.
unfoldable pub is_valid_capture_name : RegexInfo → Option (List ℕ) → Outcome Bool
is_valid_capture_name r none = raise invalid_argument
is_valid_capture_name r (some key) = capture_index r key none false >>= λ x. ok (is_found x)

unfoldable pub is_valid_capture_name_error : RegexInfo → Option (List ℕ) → Outcome (Bool × Bool)
is_valid_capture_name_error r none = raise invalid_argument
is_valid_capture_name_error r (some key) =
    capture_index_with_error r key none >>= λ (x, error). ok (is_found x, error)

unfoldable pub capture_name_for_capture_index : RegexInfo → ℕ → Outcome (Option (List ℕ))
capture_name_for_capture_index r index =
    if leb r.capture_count index
    then raise invalid_argument
    else elim r.capture_name_array [ none ↦ ok none | some array ↦ ok (get_or array index none) ]

unfoldable pub capture_name_for_capture_index_error :
    RegexInfo → ℕ → Outcome (Option (List ℕ) × Bool)
capture_name_for_capture_index_error r index =
    if leb r.capture_count index then ok (none, true) else elim r.capture_name_array [
      | none ↦ ok (none, true)
      | some array ↦ ok (get_or array index none, false)
    ]

unfoldable pub capture_index_for_capture_name : RegexInfo → Option (List ℕ) → Outcome (Option ℕ)
capture_index_for_capture_name r none = raise invalid_argument
capture_index_for_capture_name r (some key) = capture_index r key none true

unfoldable pub capture_index_for_capture_name_error :
    RegexInfo → Option (List ℕ) → Outcome (Option ℕ × Bool)
capture_index_for_capture_name_error r none = raise invalid_argument
capture_index_for_capture_name_error r (some key) = capture_index_with_error r key none

unfoldable pub capture_index_in_ranges :
    RegexInfo → Option (List ℕ) → Option (List NsRange) → Outcome (Option ℕ)
capture_index_in_ranges r none ranges = raise invalid_argument
capture_index_in_ranges r (some key) none = raise invalid_argument
capture_index_in_ranges r (some key) (some ranges) = capture_index r key (some ranges) true

unfoldable pub capture_index_in_ranges_error :
    RegexInfo → Option (List ℕ) → Option (List NsRange) → Outcome (Option ℕ × Bool)
capture_index_in_ranges_error r none ranges = raise invalid_argument
capture_index_in_ranges_error r (some key) none = raise invalid_argument
capture_index_in_ranges_error r (some key) (some ranges) =
    capture_index_with_error r key (some ranges)
