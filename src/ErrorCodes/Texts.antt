-- ===== src/ErrorCodes/Texts.antt =====
-- The functions of Source/RKUtility.m that give the name of an error code as text.
use regexkit.Base.{ℕ, List, [], ◌∷◌, Option, some, none, if◌then◌else◌, ◌==◌}
use regexkit.ErrorCodes.{
  CompileError, code, assertion_expected_after_condition, byte_escape_at_end_of_pattern,
  callout_exceeds_maximum_allowed, conditional_group_contains_more_than_two_branches,
  define_group_contains_more_than_one_branch, digit_expected_after_relative_subpattern,
  duplicate_subpattern_names, error_offset_passed_as_null, escape_at_end_of_pattern,
  hex_character_value_too_large, illegal_octal_value_outside_utf8, inconsistent_newline_options,
  internal_code_overflow, internal_error_unexpected_repeat, internal_overran_compiling_workspace,
  internal_referenced_subpattern_not_found, invalid_condition, invalid_escape_in_character_class,
  invalid_utf8_string, lookbehind_assertion_not_fixed_length,
  malformed_name_or_number_after_subpattern, malformed_unicode_property, missing_end_parentheses,
  missing_parentheses, missing_parentheses_after_callout, missing_parentheses_after_comment,
  missing_terminator_for_character_class, missing_unicode_support, missing_utf8_support, no_error,
  no_memory, not_allowed_in_lookbehind_assertion, not_supported, nothing_to_repeat,
  number_is_too_big, numbers_out_of_order, numbers_to_big, posix_collating_not_supported,
  posix_named_class_outside_of_class, range_out_of_order_in_character_class, recursive_infinit_loop,
  reference_must_be_non_zero_number_or_braced, reference_to_non_existent_subpattern,
  regex_too_large, relative_subpattern_number_must_not_be_zero, repeated_subpattern_too_long,
  repeating_define_group_not_allowed, subpattern_name_expected, subpattern_name_missing_terminator,
  subpattern_name_too_long, too_many_subpatterns, unknown_option_bits, unknown_posix_class_name,
  unknown_property_after_unicode_character, unmatched_parentheses,
  unrecognized_character_after_named_pattern, unrecognized_character_after_named_subppatern,
  unrecognized_character_after_option, unrecognized_character_following_escape, verb_not_recognized,
  verb_with_an_argument_is_not_supported,
}

-- A string that the functions give: a name, or the text for an unknown code, which
-- `RKStringFromCompileErrorCode` gives with its number.
pub data ErrorText : Type 0 where
  named : CompileError → ErrorText
  unknown_with_number : ℕ → ErrorText
  unknown : ErrorText

-- The cases of a switch, each with its label and the name that its body gives; the first label
-- that has the number is taken.
unfoldable pub switch : List (CompileError × CompileError) → ℕ → Option CompileError
switch [] n = none
switch ((label, name) ∷ cases) n =
    let rest = switch cases n in if code label == n then some name else rest

abbrev pub string_cases : List (CompileError × CompileError)
string_cases =
    (no_error, no_error)
    ∷ (escape_at_end_of_pattern, escape_at_end_of_pattern)
    ∷ (byte_escape_at_end_of_pattern, byte_escape_at_end_of_pattern)
    ∷ (unrecognized_character_following_escape, unrecognized_character_following_escape)
    ∷ (numbers_out_of_order, numbers_out_of_order)
    ∷ (numbers_to_big, numbers_to_big)
    ∷ (missing_terminator_for_character_class, missing_terminator_for_character_class)
    ∷ (invalid_escape_in_character_class, invalid_escape_in_character_class)
    ∷ (range_out_of_order_in_character_class, range_out_of_order_in_character_class)
    ∷ (nothing_to_repeat, nothing_to_repeat)
    ∷ (internal_error_unexpected_repeat, internal_error_unexpected_repeat)
    ∷ (unrecognized_character_after_option, unrecognized_character_after_option)
    ∷ (posix_named_class_outside_of_class, posix_named_class_outside_of_class)
    ∷ (missing_parentheses, missing_parentheses)
    ∷ (reference_to_non_existent_subpattern, reference_to_non_existent_subpattern)
    ∷ (error_offset_passed_as_null, error_offset_passed_as_null)
    ∷ (unknown_option_bits, unknown_option_bits)
    ∷ (missing_parentheses_after_comment, missing_parentheses_after_comment)
    ∷ (regex_too_large, regex_too_large)
    ∷ (no_memory, no_memory)
    ∷ (unmatched_parentheses, unmatched_parentheses)
    ∷ (internal_code_overflow, internal_code_overflow)
    ∷ (unrecognized_character_after_named_subppatern, unrecognized_character_after_named_subppatern)
    ∷ (lookbehind_assertion_not_fixed_length, lookbehind_assertion_not_fixed_length)
    ∷ (malformed_name_or_number_after_subpattern, malformed_name_or_number_after_subpattern)
    ∷ (
      conditional_group_contains_more_than_two_branches,
      conditional_group_contains_more_than_two_branches,
    )
    ∷ (assertion_expected_after_condition, assertion_expected_after_condition)
    ∷ (missing_end_parentheses, missing_end_parentheses)
    ∷ (unknown_posix_class_name, unknown_posix_class_name)
    ∷ (posix_collating_not_supported, posix_collating_not_supported)
    ∷ (missing_utf8_support, missing_utf8_support)
    ∷ (hex_character_value_too_large, hex_character_value_too_large)
    ∷ (invalid_condition, invalid_condition)
    ∷ (not_allowed_in_lookbehind_assertion, not_allowed_in_lookbehind_assertion)
    ∷ (not_supported, not_supported)
    ∷ (callout_exceeds_maximum_allowed, callout_exceeds_maximum_allowed)
    ∷ (missing_parentheses_after_callout, missing_parentheses_after_callout)
    ∷ (recursive_infinit_loop, recursive_infinit_loop)
    ∷ (unrecognized_character_after_named_pattern, unrecognized_character_after_named_pattern)
    ∷ (subpattern_name_missing_terminator, subpattern_name_missing_terminator)
    ∷ (duplicate_subpattern_names, duplicate_subpattern_names)
    ∷ (invalid_utf8_string, invalid_utf8_string)
    ∷ (missing_unicode_support, missing_unicode_support)
    ∷ (malformed_unicode_property, malformed_unicode_property)
    ∷ (unknown_property_after_unicode_character, unknown_property_after_unicode_character)
    ∷ (subpattern_name_too_long, subpattern_name_too_long)
    ∷ (too_many_subpatterns, too_many_subpatterns)
    ∷ (repeated_subpattern_too_long, repeated_subpattern_too_long)
    ∷ (illegal_octal_value_outside_utf8, illegal_octal_value_outside_utf8)
    ∷ (internal_overran_compiling_workspace, internal_overran_compiling_workspace)
    ∷ (internal_referenced_subpattern_not_found, internal_referenced_subpattern_not_found)
    ∷ (define_group_contains_more_than_one_branch, define_group_contains_more_than_one_branch)
    ∷ (repeating_define_group_not_allowed, repeating_define_group_not_allowed)
    ∷ (inconsistent_newline_options, inconsistent_newline_options)
    ∷ (reference_must_be_non_zero_number_or_braced, reference_must_be_non_zero_number_or_braced)
    ∷ (relative_subpattern_number_must_not_be_zero, relative_subpattern_number_must_not_be_zero)
    ∷ (verb_with_an_argument_is_not_supported, verb_with_an_argument_is_not_supported)
    ∷ (verb_not_recognized, verb_not_recognized)
    ∷ (number_is_too_big, number_is_too_big)
    ∷ (subpattern_name_expected, subpattern_name_expected)
    ∷ (digit_expected_after_relative_subpattern, digit_expected_after_relative_subpattern)
    ∷ []

abbrev pub character_cases : List (CompileError × CompileError)
character_cases =
    (no_error, no_error)
    ∷ (escape_at_end_of_pattern, escape_at_end_of_pattern)
    ∷ (byte_escape_at_end_of_pattern, byte_escape_at_end_of_pattern)
    ∷ (unrecognized_character_following_escape, unrecognized_character_following_escape)
    ∷ (numbers_out_of_order, numbers_out_of_order)
    ∷ (numbers_to_big, numbers_to_big)
    ∷ (missing_terminator_for_character_class, missing_terminator_for_character_class)
    ∷ (invalid_escape_in_character_class, invalid_escape_in_character_class)
    ∷ (range_out_of_order_in_character_class, range_out_of_order_in_character_class)
    ∷ (nothing_to_repeat, nothing_to_repeat)
    ∷ (internal_error_unexpected_repeat, internal_error_unexpected_repeat)
    ∷ (unrecognized_character_after_option, unrecognized_character_after_option)
    ∷ (posix_named_class_outside_of_class, posix_named_class_outside_of_class)
    ∷ (missing_parentheses, missing_parentheses)
    ∷ (reference_to_non_existent_subpattern, reference_to_non_existent_subpattern)
    ∷ (error_offset_passed_as_null, error_offset_passed_as_null)
    ∷ (unknown_option_bits, unknown_option_bits)
    ∷ (missing_parentheses_after_comment, missing_parentheses_after_comment)
    ∷ (regex_too_large, regex_too_large)
    ∷ (no_memory, no_memory)
    ∷ (unmatched_parentheses, unmatched_parentheses)
    ∷ (internal_code_overflow, internal_code_overflow)
    ∷ (unrecognized_character_after_named_subppatern, unrecognized_character_after_named_subppatern)
    ∷ (lookbehind_assertion_not_fixed_length, lookbehind_assertion_not_fixed_length)
    ∷ (malformed_name_or_number_after_subpattern, malformed_name_or_number_after_subpattern)
    ∷ (
      conditional_group_contains_more_than_two_branches,
      conditional_group_contains_more_than_two_branches,
    )
    ∷ (assertion_expected_after_condition, assertion_expected_after_condition)
    ∷ (missing_end_parentheses, missing_end_parentheses)
    ∷ (unknown_posix_class_name, unknown_posix_class_name)
    ∷ (posix_collating_not_supported, posix_collating_not_supported)
    ∷ (missing_utf8_support, missing_utf8_support)
    ∷ (hex_character_value_too_large, hex_character_value_too_large)
    ∷ (invalid_condition, invalid_condition)
    ∷ (not_allowed_in_lookbehind_assertion, not_allowed_in_lookbehind_assertion)
    ∷ (not_supported, not_supported)
    ∷ (callout_exceeds_maximum_allowed, callout_exceeds_maximum_allowed)
    ∷ (missing_parentheses_after_callout, missing_parentheses_after_callout)
    ∷ (recursive_infinit_loop, recursive_infinit_loop)
    ∷ (unrecognized_character_after_named_pattern, unrecognized_character_after_named_pattern)
    ∷ (subpattern_name_missing_terminator, subpattern_name_missing_terminator)
    ∷ (duplicate_subpattern_names, duplicate_subpattern_names)
    ∷ (invalid_utf8_string, invalid_utf8_string)
    ∷ (missing_unicode_support, missing_unicode_support)
    ∷ (malformed_unicode_property, malformed_unicode_property)
    ∷ (unknown_property_after_unicode_character, unknown_property_after_unicode_character)
    ∷ (subpattern_name_too_long, subpattern_name_too_long)
    ∷ (too_many_subpatterns, too_many_subpatterns)
    ∷ (repeated_subpattern_too_long, repeated_subpattern_too_long)
    ∷ (illegal_octal_value_outside_utf8, illegal_octal_value_outside_utf8)
    ∷ (internal_overran_compiling_workspace, internal_overran_compiling_workspace)
    ∷ (internal_referenced_subpattern_not_found, internal_referenced_subpattern_not_found)
    ∷ (define_group_contains_more_than_one_branch, define_group_contains_more_than_one_branch)
    ∷ (repeating_define_group_not_allowed, repeating_define_group_not_allowed)
    ∷ (inconsistent_newline_options, inconsistent_newline_options)
    ∷ (reference_must_be_non_zero_number_or_braced, reference_must_be_non_zero_number_or_braced)
    ∷ (relative_subpattern_number_must_not_be_zero, relative_subpattern_number_must_not_be_zero)
    ∷ []

unfoldable pub text_or : ErrorText → Option CompileError → ErrorText
text_or text none = text
text_or text (some name) = named name

-- `RKStringFromCompileErrorCode`
unfoldable pub string_from_compile_error_code : ℕ → ErrorText
string_from_compile_error_code n = text_or (unknown_with_number n) (switch string_cases n)

-- `RKCharactersFromCompileErrorCode`
unfoldable pub characters_from_compile_error_code : ℕ → ErrorText
characters_from_compile_error_code n = text_or unknown (switch character_cases n)
