-- ===== src/Tests/ErrorRuns.antt =====
-- The names of the error codes at one code.
use regexkit.Base.{◌≡◌, none}
use regexkit.ErrorCodes.Texts.{characters_from_compile_error_code}
use regexkit.ErrorCodes.Names.{characters_from_compile_error_code-string, named_of}
use regexkit.ErrorCodes.MatchErrors.{
  no_match, string_from_match_error_code, characters_from_match_error_code,
}
use regexkit.ErrorCodes.MatchNames.{DecodersDocumented, decoders-documented}

characters_from_compile_error_code-string_example :
    named_of (characters_from_compile_error_code 61) ≡ none
characters_from_compile_error_code-string_example = characters_from_compile_error_code-string 61

decoders-documented_example :
    DecodersDocumented string_from_match_error_code characters_from_match_error_code 1 no_match
decoders-documented_example = decoders-documented 1 no_match
