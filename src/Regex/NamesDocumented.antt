-- ===== src/Regex/NamesDocumented.antt =====
-- The capture name methods of Source/RKRegex.m do what the header documents of them.
use regexkit.Regex.CaptureNames.{
  is_valid_capture_name, is_valid_capture_name_error, capture_name_for_capture_index,
  capture_name_for_capture_index_error, capture_index_for_capture_name,
  capture_index_for_capture_name_error, capture_index_in_ranges, capture_index_in_ranges_error,
}
use regexkit.Regex.NamesHeader.{NameMethods}

unfoldable pub name_methods : NameMethods
name_methods = record {
  is_valid_capture_name = is_valid_capture_name;
  is_valid_capture_name_error = is_valid_capture_name_error;
  capture_index_for_capture_name = capture_index_for_capture_name;
  capture_index_for_capture_name_error = capture_index_for_capture_name_error;
  capture_name_for_capture_index = capture_name_for_capture_index;
  capture_name_for_capture_index_error = capture_name_for_capture_index_error;
  capture_index_in_ranges = capture_index_in_ranges;
  capture_index_in_ranges_error = capture_index_in_ranges_error;
}
