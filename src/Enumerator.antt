-- ===== src/Enumerator.antt =====
-- Source/RKEnumerator.m: an enumeration of the matches of a regex in a string. The regex is the
-- interface of Enumerator/Answers, and the string is given by its buffer.
pub mod Answers
pub mod Progress
pub mod Start
pub mod Header
pub mod Documented
use regexkit.Base.{
  bad_access, bad_access, ℕ, ◌+◌, Bool, true, false, if◌then◌else◌, ltb, leb, ◌==◌, Option, some,
  none, List, [], ◌∷◌, map, get_or, replicate, Outcome, ok, raise, invalid_argument,
  range_exception, capture_reference, not, ◌>>=◌,
}
use regexkit.Foundation.{NsRange, make_range, max_range, not_found, sub_word, StringBuffer}
use regexkit.Unicode.{convert_utf8_to_utf16_range, convert_utf16_to_utf8_range}
use Answers.{Matcher, CaptureNames}

-- `RKEnumerator`; the regex and the string are parameters, since they do not change until they are
-- released, when `at` becomes `NSNotFound`.
pub record Enumerator : Type 0 where
  pub at : ℕ
  pub search : NsRange
  pub utf8_ranges : List NsRange
  pub utf16_ranges : List NsRange
  pub has_performed_match : Bool

abbrev pub no_range : NsRange
no_range = make_range not_found 0

module _ (M : Matcher) (text : StringBuffer) where
  unfoldable pub start_at : NsRange → Outcome Enumerator
  start_at bytes =
      if ltb text.length bytes.location
      then raise range_exception
      else if ltb text.length (max_range bytes)
      then raise range_exception
      else ok (record {
        at = bytes.location;
        search = bytes;
        utf8_ranges = replicate M.capture_count no_range;
        utf16_ranges = replicate M.capture_count no_range;
        has_performed_match = false;
      })

  -- `initWithRegex:string:inRange:`, with a regex that compiled and memory for the ranges.
  unfoldable pub init_in_range : NsRange → Outcome Enumerator
  init_in_range range = convert_utf16_to_utf8_range (some text) range >>= start_at

  unfoldable pub convert_all : List NsRange → Outcome (List NsRange)
  convert_all [] = ok []
  convert_all (r ∷ rs) =
      let rest = convert_all rs in
      convert_utf8_to_utf16_range (some text) r >>= λ s. rest >>= λ ss. ok (s ∷ ss)

  -- `releaseAllResources`
  abbrev pub release_all_resources : Enumerator → Enumerator
  release_all_resources e = record e { at = not_found; utf8_ranges = []; utf16_ranges = [] }

  -- What `_updateToNextMatch` does with the answer of the regex.
  unfoldable pub take_match : Enumerator → Option (List NsRange) → Outcome (Enumerator × Bool)
  take_match e none = ok (release_all_resources (record e { has_performed_match = true }), false)
  take_match e (some ranges) =
      let found = get_or ranges 0 no_range in
      convert_all ranges >>= λ converted. ok (
        record e {
          at = found.location + found.length;
          utf8_ranges = ranges;
          utf16_ranges = converted;
          has_performed_match = true;
        },
        true,
      )

  unfoldable pub update_to_next_match : Enumerator → Outcome (Enumerator × Bool)
  update_to_next_match e =
      if e.at == not_found
      then ok (e, false)
      else take_match e (M.get_ranges (make_range e.at (sub_word (max_range e.search) e.at)))

  unfoldable pub current_range : Enumerator → Outcome NsRange
  current_range e =
      if e.at == not_found
      then ok no_range
      else if e.has_performed_match
      then ok (get_or e.utf16_ranges 0 no_range)
      else raise invalid_argument

  unfoldable pub current_range_for_capture : Enumerator → ℕ → Outcome NsRange
  current_range_for_capture e capture =
      if e.at == not_found
      then ok no_range
      else if e.has_performed_match
      then (if leb M.capture_count capture
          then raise invalid_argument
          else ok (get_or e.utf16_ranges capture no_range))
      else raise invalid_argument

  -- `nextObject`: the ranges of the captures, or `NULL`.
  unfoldable pub next_object : Enumerator → Outcome (Enumerator × Option (List NsRange))
  next_object e =
      if e.at == not_found
      then ok (e, none)
      else update_to_next_match e >>= λ (next, matched).
          ok (next, (if matched then some next.utf16_ranges else none))

  unfoldable pub next_range : Enumerator → Outcome (Enumerator × NsRange)
  next_range e =
      if e.at == not_found
      then ok (e, no_range)
      else update_to_next_match e >>= λ (next, matched). current_range next >>= λ r. ok (next, r)

  unfoldable pub next_range_for_capture : Enumerator → ℕ → Outcome (Enumerator × NsRange)
  next_range_for_capture e capture =
      if e.at == not_found
      then ok (e, no_range)
      else if leb M.capture_count capture
      then raise invalid_argument
      else update_to_next_match e >>= λ (next, matched).
          current_range_for_capture next capture >>= λ r. ok (next, r)

  -- `initWithRegex:string:`, for the whole string.
  unfoldable pub init_with_string : Outcome Enumerator
  init_with_string = init_in_range (make_range 0 text.units)

  -- `enumeratorWithRegex:string:` and `enumeratorWithRegex:string:inRange:`
  unfoldable pub enumerator_with_string : Outcome Enumerator
  enumerator_with_string = init_in_range (make_range 0 text.units)

  unfoldable pub enumerator_in_range : NsRange → Outcome Enumerator
  enumerator_in_range = init_in_range

  -- `currentRanges`: `none` is `NULL`.
  unfoldable pub current_ranges : Enumerator → Outcome (Option (List NsRange))
  current_ranges e =
      if e.at == not_found
      then ok none
      else if e.has_performed_match
      then ok (some e.utf16_ranges)
      else raise invalid_argument

  -- `nextRanges`
  unfoldable pub next_ranges : Enumerator → Outcome (Enumerator × Option (List NsRange))
  next_ranges e =
      update_to_next_match e >>= λ (next, matched). current_ranges next >>= λ r. ok (next, r)

  module _ (names : CaptureNames) where
    -- `currentRangeForCaptureName:`; `none` is a `NULL` name. The index may be `NSNotFound`, which the
    -- code does not ask, and is then behind the end of `resultUTF16Ranges`.
    unfoldable pub current_range_for_capture_name : Enumerator → Option (List ℕ) → Outcome NsRange
    current_range_for_capture_name e none = raise invalid_argument
    current_range_for_capture_name e (some name) =
        if e.at == not_found
        then ok no_range
        else if not e.has_performed_match
        then raise invalid_argument
        else if not (names.is_valid name)
        then raise capture_reference
        else (names.index_for name e.utf8_ranges >>= λ i.
            if leb M.capture_count i
            then raise bad_access
            else ok (get_or e.utf16_ranges i no_range))

    -- `nextRangeForCaptureName:`
    unfoldable pub next_range_for_capture_name :
        Enumerator → Option (List ℕ) → Outcome (Enumerator × NsRange)
    next_range_for_capture_name e none = raise invalid_argument
    next_range_for_capture_name e (some name) =
        if e.at == not_found
        then ok (e, no_range)
        else if not (names.is_valid name)
        then raise capture_reference
        else (update_to_next_match e >>= λ (next, matched).
            current_range_for_capture_name next (some name) >>= λ r. ok (next, r))
