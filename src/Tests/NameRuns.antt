-- ===== src/Tests/NameRuns.antt =====
-- The methods for capture names, for a regex with a name that repeats.
use regexkit.Base.{◌≡◌, List, [], ◌∷◌, some, none, true, refl, ok}
use regexkit.Regex.Names.{entry_index, compare_names, find_name, search_names}
use regexkit.Regex.CaptureNames.{
  RegexInfo, capture_index_in_ranges, capture_index, capture_index_with_error, index_answer,
  valid_name, choose, walk_down, walk_up, has_name, is_matched, capture_index_for_capture_name,
  first_of_name, is_prefix,
}
use regexkit.Foundation.{NsRange, make_range, not_found}

-- (?J) with the captures 1 and 3 of the name "a", and 2 of "b".
abbrev repeated : RegexInfo
repeated = record {
  compiled_regex_string = [];
  compile_option = 0;
  dup_names = true;
  capture_count = 4;
  capture_name_table =
      record { high = 0; low = 1; name = 97 ∷ [] }
      ∷ record { high = 0; low = 3; name = 97 ∷ [] }
      ∷ record { high = 0; low = 2; name = 98 ∷ [] }
      ∷ [];
  capture_name_length = 4;
  capture_name_array = none;
  jchanged = true;
}

-- The captures 0 and 3 matched.
abbrev third : List NsRange
third = make_range 0 3 ∷ make_range not_found 0 ∷ make_range not_found 0 ∷ make_range 2 1 ∷ []

in_ranges-third : capture_index_in_ranges repeated (some (97 ∷ [])) (some third) ≡ ok (some 3)
unfolding capture_index_in_ranges capture_index capture_index_with_error index_answer valid_name
    choose walk_down walk_up has_name is_matched find_name search_names compare_names entry_index
in_ranges-third = refl

-- Without ranges the loop that gets to the start of the table keeps the entry that the search found:
-- of the captures 1 and 3 of the name "a" it is not the first.
first-is_third : capture_index_for_capture_name repeated (some (97 ∷ [])) ≡ ok (some 3)
unfolding capture_index_for_capture_name capture_index capture_index_with_error index_answer
    valid_name first_of_name is_prefix find_name search_names compare_names entry_index
first-is_third = refl
