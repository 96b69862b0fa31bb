-- ===== src/Enumerator/Documented.antt =====
-- The methods of Source/RKEnumerator.m do what the header documents of them.
use regexkit.Base.{◌≤◌, get_or, if◌then◌else◌, ℕ, ◌≡◌, ◌<◌, ◌==◌, true, List, ok}
use regexkit.Foundation.{NsRange, not_found, StringBuffer}
use regexkit.Enumerator.Answers.{Matcher, CaptureNames}
use regexkit.Enumerator.{
  no_range, Enumerator, init_in_range, init_with_string, enumerator_with_string,
  enumerator_in_range, current_range, current_range_for_capture, current_range_for_capture_name,
  current_ranges, next_object, next_range, next_range_for_capture, next_range_for_capture_name,
  next_ranges,
}
use regexkit.Enumerator.Header.{CreatingMethods, CurrentMethods, AdvancingMethods}

module _ (M : Matcher) (text : StringBuffer) (names : CaptureNames) where
  unfoldable pub creating_methods : CreatingMethods
  creating_methods = record {
    enumerator_with_string = enumerator_with_string M text;
    enumerator_in_range = enumerator_in_range M text;
    init_with_string = init_with_string M text;
    init_in_range = init_in_range M text;
  }

  unfoldable pub current_methods : CurrentMethods
  current_methods = record {
    current_range = current_range M text;
    current_range_for_capture = current_range_for_capture M text;
    current_range_for_capture_name = current_range_for_capture_name M text names;
    current_ranges = current_ranges M text;
  }

  unfoldable pub advancing_methods : AdvancingMethods
  advancing_methods = record {
    next_object = next_object M text;
    next_range = next_range M text;
    next_range_for_capture = next_range_for_capture M text;
    next_range_for_capture_name = next_range_for_capture_name M text names;
    next_ranges = next_ranges M text;
  }

  -- The name is that of this capture alone: its index is answered where the capture matched, and
  -- `NSNotFound` where it did not.
  pub record Names (name : List ℕ) (capture : ℕ) : Type 0 where
    pub valid : names.is_valid name ≡ true
    pub found :
        (ranges : List NsRange)
        → names.index_for name ranges
          ≡ ok (
              if (get_or ranges capture no_range).location == not_found then not_found else capture)
    pub countable : M.capture_count ≤ not_found
    pub small : capture < M.capture_count
