-- ===== src/ErrorCodes/Names.antt =====
-- What the names of the error codes have to do with the codes.
use regexkit.Base.{
  ℕ, List, [], ◌∷◌, ◌++◌, map, Option, some, none, if◌then◌else◌, ◌==◌, ==_iff, ◌≡◌, ◌↔◌, ◌⊎◌, refl,
  sym, ap, ◌∙◌, arith, inl, inr, Bool, true, false, Bool-cases, leb, ◌&&◌, some-injective,
}
use regexkit.ErrorCodes.{
  CompileError, code, assertion_expected_after_condition, byte_escape_at_end_of_pattern,
  callout_exceeds_maximum_allowed, conditional_group_contains_more_than_two_branches,
  define_group_contains_more_than_one_branch, digit_expected_after_relative_subpattern,
  duplicate_subpattern_names, error_offset_passed_as_null, escape_at_end_of_pattern,
  hex_character_value_too_large, illegal_octal_value_outside_utf8, inconsistent_newline_options,
  internal_code_overflow, internal_error_unexpected_repeat, internal_overran_compiling_workspace,
  internal_referenced_subpattern_not_found, invalid_condition, invalid_escape_in_character_class,
  invalid_utf8_string, lookbehind_assertion_not_fixed_length,
  malformed_name_or_number_after_subpattern, malformed_unicode_property, missing_end_parentheses,
  missing_parentheses, missing_parentheses_after_callout, missing_parentheses_after_comment,
  missing_terminator_for_character_class, missing_unicode_support, missing_utf8_support, no_error,
  no_memory, not_allowed_in_lookbehind_assertion, not_supported, nothing_to_repeat,
  number_is_too_big, numbers_out_of_order, numbers_to_big, posix_collating_not_supported,
  posix_named_class_outside_of_class, range_out_of_order_in_character_class, recursive_infinit_loop,
  reference_must_be_non_zero_number_or_braced, reference_to_non_existent_subpattern,
  regex_too_large, relative_subpattern_number_must_not_be_zero, repeated_subpattern_too_long,
  repeating_define_group_not_allowed, subpattern_name_expected, subpattern_name_missing_terminator,
  subpattern_name_too_long, too_many_subpatterns, unknown_option_bits, unknown_posix_class_name,
  unknown_property_after_unicode_character, unmatched_parentheses,
  unrecognized_character_after_named_pattern, unrecognized_character_after_named_subppatern,
  unrecognized_character_after_option, unrecognized_character_following_escape, verb_not_recognized,
  verb_with_an_argument_is_not_supported,
}
use regexkit.ErrorCodes.Texts.{
  switch, string_cases, character_cases, ErrorText, named, unknown, unknown_with_number, text_or,
  string_from_compile_error_code, characters_from_compile_error_code,
}

abbrev twice : CompileError → CompileError × CompileError
twice e = (e, e)

-- The errors that the shorter table does not have.
abbrev late_errors : List CompileError
late_errors =
    verb_with_an_argument_is_not_supported ∷ verb_not_recognized ∷ number_is_too_big
    ∷ subpattern_name_expected ∷ digit_expected_after_relative_subpattern ∷ []

abbrev all_errors : List CompileError
all_errors =
    no_error ∷ escape_at_end_of_pattern ∷ byte_escape_at_end_of_pattern
    ∷ unrecognized_character_following_escape ∷ numbers_out_of_order ∷ numbers_to_big
    ∷ missing_terminator_for_character_class ∷ invalid_escape_in_character_class
    ∷ range_out_of_order_in_character_class ∷ nothing_to_repeat ∷ internal_error_unexpected_repeat
    ∷ unrecognized_character_after_option ∷ posix_named_class_outside_of_class ∷ missing_parentheses
    ∷ reference_to_non_existent_subpattern ∷ error_offset_passed_as_null ∷ unknown_option_bits
    ∷ missing_parentheses_after_comment ∷ regex_too_large ∷ no_memory ∷ unmatched_parentheses
    ∷ internal_code_overflow ∷ unrecognized_character_after_named_subppatern
    ∷ lookbehind_assertion_not_fixed_length ∷ malformed_name_or_number_after_subpattern
    ∷ conditional_group_contains_more_than_two_branches ∷ assertion_expected_after_condition
    ∷ missing_end_parentheses ∷ unknown_posix_class_name ∷ posix_collating_not_supported
    ∷ missing_utf8_support ∷ hex_character_value_too_large ∷ invalid_condition
    ∷ not_allowed_in_lookbehind_assertion ∷ not_supported ∷ callout_exceeds_maximum_allowed
    ∷ missing_parentheses_after_callout ∷ recursive_infinit_loop
    ∷ unrecognized_character_after_named_pattern ∷ subpattern_name_missing_terminator
    ∷ duplicate_subpattern_names ∷ invalid_utf8_string ∷ missing_unicode_support
    ∷ malformed_unicode_property ∷ unknown_property_after_unicode_character
    ∷ subpattern_name_too_long ∷ too_many_subpatterns ∷ repeated_subpattern_too_long
    ∷ illegal_octal_value_outside_utf8 ∷ internal_overran_compiling_workspace
    ∷ internal_referenced_subpattern_not_found ∷ define_group_contains_more_than_one_branch
    ∷ repeating_define_group_not_allowed ∷ inconsistent_newline_options
    ∷ reference_must_be_non_zero_number_or_braced ∷ relative_subpattern_number_must_not_be_zero
    ∷ verb_with_an_argument_is_not_supported ∷ verb_not_recognized ∷ number_is_too_big
    ∷ subpattern_name_expected ∷ digit_expected_after_relative_subpattern ∷ []

switch-code :
    (labels : List CompileError) (n : ℕ) (e : CompileError)
    → switch (map twice labels) n ≡ some e
    → code e ≡ n
unfolding switch
switch-code [] n e found = absurd (ground (arith, found))
switch-code (name ∷ labels) n e found = elim (Bool-cases (code name == n)) [
  | inl same ↦
      ap code (
        sym (
          some-injective name e
            (sym (ap (λ b. if b then some name else switch (map twice labels) n) same) ∙ found)))
      ∙ (==_iff (code name) n).0 same
  | inr other ↦
      switch-code labels n e
        (sym (ap (λ b. if b then some name else switch (map twice labels) n) other) ∙ found)
]

switch-append :
    (first later : List (CompileError × CompileError)) (n : ℕ)
    → switch later n ≡ none
    → switch (first ++ later) n ≡ switch first n
unfolding switch
switch-append [] later n e = e
switch-append ((label, name) ∷ first) later n e = rw (switch-append first later n e) refl

abbrev pub named_of : ErrorText → Option CompileError
named_of (named e) = some e
named_of unknown = none
named_of (unknown_with_number n) = none

named_of-text_or :
    (n : ℕ) (o : Option CompileError) → named_of (text_or (unknown_with_number n) o) ≡ o
unfolding text_or
named_of-text_or n none = refl
named_of-text_or n (some e) = refl

named-code : (e : CompileError) → string_from_compile_error_code (code e) ≡ named e
unfolding string_from_compile_error_code switch text_or code
named-code no_error = refl
named-code escape_at_end_of_pattern = refl
named-code byte_escape_at_end_of_pattern = refl
named-code unrecognized_character_following_escape = refl
named-code numbers_out_of_order = refl
named-code numbers_to_big = refl
named-code missing_terminator_for_character_class = refl
named-code invalid_escape_in_character_class = refl
named-code range_out_of_order_in_character_class = refl
named-code nothing_to_repeat = refl
named-code internal_error_unexpected_repeat = refl
named-code unrecognized_character_after_option = refl
named-code posix_named_class_outside_of_class = refl
named-code missing_parentheses = refl
named-code reference_to_non_existent_subpattern = refl
named-code error_offset_passed_as_null = refl
named-code unknown_option_bits = refl
named-code missing_parentheses_after_comment = refl
named-code regex_too_large = refl
named-code no_memory = refl
named-code unmatched_parentheses = refl
named-code internal_code_overflow = refl
named-code unrecognized_character_after_named_subppatern = refl
named-code lookbehind_assertion_not_fixed_length = refl
named-code malformed_name_or_number_after_subpattern = refl
named-code conditional_group_contains_more_than_two_branches = refl
named-code assertion_expected_after_condition = refl
named-code missing_end_parentheses = refl
named-code unknown_posix_class_name = refl
named-code posix_collating_not_supported = refl
named-code missing_utf8_support = refl
named-code hex_character_value_too_large = refl
named-code invalid_condition = refl
named-code not_allowed_in_lookbehind_assertion = refl
named-code not_supported = refl
named-code callout_exceeds_maximum_allowed = refl
named-code missing_parentheses_after_callout = refl
named-code recursive_infinit_loop = refl
named-code unrecognized_character_after_named_pattern = refl
named-code subpattern_name_missing_terminator = refl
named-code duplicate_subpattern_names = refl
named-code invalid_utf8_string = refl
named-code missing_unicode_support = refl
named-code malformed_unicode_property = refl
named-code unknown_property_after_unicode_character = refl
named-code subpattern_name_too_long = refl
named-code too_many_subpatterns = refl
named-code repeated_subpattern_too_long = refl
named-code illegal_octal_value_outside_utf8 = refl
named-code internal_overran_compiling_workspace = refl
named-code internal_referenced_subpattern_not_found = refl
named-code define_group_contains_more_than_one_branch = refl
named-code repeating_define_group_not_allowed = refl
named-code inconsistent_newline_options = refl
named-code reference_must_be_non_zero_number_or_braced = refl
named-code relative_subpattern_number_must_not_be_zero = refl
named-code verb_with_an_argument_is_not_supported = refl
named-code verb_not_recognized = refl
named-code number_is_too_big = refl
named-code subpattern_name_expected = refl
named-code digit_expected_after_relative_subpattern = refl

-- A code is given the name of an error exactly where it is the code of that error.
string_from_compile_error_code-named :
    (n : ℕ) (e : CompileError) → (string_from_compile_error_code n ≡ named e) ↔ (code e ≡ n)
unfolding string_from_compile_error_code
string_from_compile_error_code-named n e = (
  (λ text.
      switch-code all_errors n e
        (sym (named_of-text_or n (switch string_cases n)) ∙ ap named_of text)),
  (λ same. ap string_from_compile_error_code (sym same) ∙ named-code e),
)

named_of-unknown : (o : Option CompileError) → named_of (text_or unknown o) ≡ o
unfolding text_or
named_of-unknown none = refl
named_of-unknown (some e) = refl

abbrev is_late : ℕ → Bool
is_late n = leb 59 n && leb n 63

late_cases : (n : ℕ) → is_late n ≡ true → (n ≡ 59) ⊎ (n ≡ 60) ⊎ (n ≡ 61) ⊎ (n ≡ 62) ⊎ (n ≡ 63)
late_cases n late = ground arith

character_cases-late : (n : ℕ) → is_late n ≡ true → switch character_cases n ≡ none
unfolding switch code
character_cases-late n late = elim (late_cases n late) [
  | inl e ↦ ap (switch character_cases) e
  | inr (inl e) ↦ ap (switch character_cases) e
  | inr (inr (inl e)) ↦ ap (switch character_cases) e
  | inr (inr (inr (inl e))) ↦ ap (switch character_cases) e
  | inr (inr (inr (inr e))) ↦ ap (switch character_cases) e
]

late_errors-none : (n : ℕ) → is_late n ≡ false → switch (map twice late_errors) n ≡ none
unfolding switch code
late_errors-none n early = ground arith

-- The characters of a code are the same name as its string, or both are no name, but for the codes
-- 59 to 63: there the characters are no name, whatever the string is.
pub characters_from_compile_error_code-string :
    (n : ℕ)
    → named_of (characters_from_compile_error_code n)
      ≡ (if is_late n then none else named_of (string_from_compile_error_code n))
unfolding characters_from_compile_error_code string_from_compile_error_code
characters_from_compile_error_code-string n =
    let chars = named_of-unknown (switch character_cases n) in
    let text = named_of-text_or n (switch string_cases n) in
    elim (Bool-cases (is_late n)) [
      | inl late ↦ rw late (chars ∙ character_cases-late n late)
      | inr early ↦ rw early (
          chars
          ∙ (sym
                (switch-append character_cases (map twice late_errors) n (late_errors-none n early))
              ∙ sym text))
    ]
