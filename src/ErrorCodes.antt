-- ===== src/ErrorCodes.antt =====
-- The error codes of a compilation, `RKCompileErrorCode` of Source/Headers/RegexKit/RegexKitTypes.h.
-- The constant `RKCompileErrorX` and the string of its name are both the constructor `x`.
pub mod Texts
pub mod Names
pub mod MatchErrors
pub mod MatchNames
use regexkit.Base.{ℕ}

-- `RKCompileErrorCode`
pub data CompileError : Type 0 where
  no_error escape_at_end_of_pattern byte_escape_at_end_of_pattern : CompileError
  unrecognized_character_following_escape numbers_out_of_order numbers_to_big : CompileError
  missing_terminator_for_character_class invalid_escape_in_character_class : CompileError
  range_out_of_order_in_character_class nothing_to_repeat internal_error_unexpected_repeat :
      CompileError
  unrecognized_character_after_option posix_named_class_outside_of_class : CompileError
  missing_parentheses reference_to_non_existent_subpattern error_offset_passed_as_null :
      CompileError
  unknown_option_bits missing_parentheses_after_comment regex_too_large no_memory : CompileError
  unmatched_parentheses internal_code_overflow : CompileError
  unrecognized_character_after_named_subppatern lookbehind_assertion_not_fixed_length : CompileError
  malformed_name_or_number_after_subpattern : CompileError
  conditional_group_contains_more_than_two_branches assertion_expected_after_condition :
      CompileError
  missing_end_parentheses unknown_posix_class_name posix_collating_not_supported : CompileError
  missing_utf8_support hex_character_value_too_large invalid_condition : CompileError
  not_allowed_in_lookbehind_assertion not_supported callout_exceeds_maximum_allowed : CompileError
  missing_parentheses_after_callout recursive_infinit_loop : CompileError
  unrecognized_character_after_named_pattern subpattern_name_missing_terminator : CompileError
  duplicate_subpattern_names invalid_utf8_string missing_unicode_support : CompileError
  malformed_unicode_property unknown_property_after_unicode_character : CompileError
  subpattern_name_too_long too_many_subpatterns repeated_subpattern_too_long : CompileError
  illegal_octal_value_outside_utf8 internal_overran_compiling_workspace : CompileError
  internal_referenced_subpattern_not_found define_group_contains_more_than_one_branch : CompileError
  repeating_define_group_not_allowed inconsistent_newline_options : CompileError
  reference_must_be_non_zero_number_or_braced relative_subpattern_number_must_not_be_zero :
      CompileError
  verb_with_an_argument_is_not_supported verb_not_recognized number_is_too_big : CompileError
  subpattern_name_expected digit_expected_after_relative_subpattern : CompileError

-- The number of a constant.
unfoldable pub code : CompileError → ℕ
code no_error = 0
code escape_at_end_of_pattern = 1
code byte_escape_at_end_of_pattern = 2
code unrecognized_character_following_escape = 3
code numbers_out_of_order = 4
code numbers_to_big = 5
code missing_terminator_for_character_class = 6
code invalid_escape_in_character_class = 7
code range_out_of_order_in_character_class = 8
code nothing_to_repeat = 9
code internal_error_unexpected_repeat = 11
code unrecognized_character_after_option = 12
code posix_named_class_outside_of_class = 13
code missing_parentheses = 14
code reference_to_non_existent_subpattern = 15
code error_offset_passed_as_null = 16
code unknown_option_bits = 17
code missing_parentheses_after_comment = 18
code regex_too_large = 20
code no_memory = 21
code unmatched_parentheses = 22
code internal_code_overflow = 23
code unrecognized_character_after_named_subppatern = 24
code lookbehind_assertion_not_fixed_length = 25
code malformed_name_or_number_after_subpattern = 26
code conditional_group_contains_more_than_two_branches = 27
code assertion_expected_after_condition = 28
code missing_end_parentheses = 29
code unknown_posix_class_name = 30
code posix_collating_not_supported = 31
code missing_utf8_support = 32
code hex_character_value_too_large = 34
code invalid_condition = 35
code not_allowed_in_lookbehind_assertion = 36
code not_supported = 37
code callout_exceeds_maximum_allowed = 38
code missing_parentheses_after_callout = 39
code recursive_infinit_loop = 40
code unrecognized_character_after_named_pattern = 41
code subpattern_name_missing_terminator = 42
code duplicate_subpattern_names = 43
code invalid_utf8_string = 44
code missing_unicode_support = 45
code malformed_unicode_property = 46
code unknown_property_after_unicode_character = 47
code subpattern_name_too_long = 48
code too_many_subpatterns = 49
code repeated_subpattern_too_long = 50
code illegal_octal_value_outside_utf8 = 51
code internal_overran_compiling_workspace = 52
code internal_referenced_subpattern_not_found = 53
code define_group_contains_more_than_one_branch = 54
code repeating_define_group_not_allowed = 55
code inconsistent_newline_options = 56
code reference_must_be_non_zero_number_or_braced = 57
code relative_subpattern_number_must_not_be_zero = 58
code verb_with_an_argument_is_not_supported = 59
code verb_not_recognized = 60
code number_is_too_big = 61
code subpattern_name_expected = 62
code digit_expected_after_relative_subpattern = 63
