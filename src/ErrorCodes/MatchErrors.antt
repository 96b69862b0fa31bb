-- ===== src/ErrorCodes/MatchErrors.antt =====
-- The error codes of a match, `RKMatchErrorCode` of Source/Headers/RegexKit/RegexKitTypes.h, and the
-- two functions of Source/RKUtility.m that name them.
use regexkit.Base.{ℕ, List, [], ◌∷◌, Option, some, none, if◌then◌else◌, ◌==◌}
use regexkit.Regex.{MatchCode, results, failed}

-- The constant `RKMatchErrorX` and the string of its name are both the constructor `x`.
pub data MatchError : Type 0 where
  no_error no_match null bad_option bad_magic unknown_opcode : MatchError
  no_memory no_substring match_limit callout bad_utf8 bad_utf8_offset : MatchError
  partial bad_partial internal bad_count recursion_limit null_work_space_limit : MatchError
  bad_newline : MatchError

-- The number whose negative is the code.
unfoldable pub number : MatchError → ℕ
number no_error = 0
number no_match = 1
number null = 2
number bad_option = 3
number bad_magic = 4
number unknown_opcode = 5
number no_memory = 6
number no_substring = 7
number match_limit = 8
number callout = 9
number bad_utf8 = 10
number bad_utf8_offset = 11
number partial = 12
number bad_partial = 13
number internal = 14
number bad_count = 15
number recursion_limit = 21
number null_work_space_limit = 22
number bad_newline = 23

-- A string that the functions give: the empty one, a name, or the text for an unknown code, which
-- `RKStringFromMatchErrorCode` gives with its number.
pub data MatchText : Type 0 where
  empty_text : MatchText
  named : MatchError → MatchText
  unknown_with_number : ℕ → MatchText
  unknown : MatchText

-- The cases of a switch, as those for the compile errors.
unfoldable pub match_switch : List (MatchError × MatchError) → ℕ → Option MatchError
match_switch [] n = none
match_switch ((label, name) ∷ cases) n =
    let rest = match_switch cases n in if number label == n then some name else rest

-- Both functions have the same cases.
abbrev pub match_cases : List (MatchError × MatchError)
match_cases =
    (no_error, no_error)
    ∷ (no_match, no_match)
    ∷ (null, null)
    ∷ (bad_option, bad_option)
    ∷ (bad_magic, bad_magic)
    ∷ (unknown_opcode, unknown_opcode)
    ∷ (no_memory, no_memory)
    ∷ (no_substring, no_substring)
    ∷ (match_limit, match_limit)
    ∷ (callout, callout)
    ∷ (bad_utf8, bad_utf8)
    ∷ (bad_utf8_offset, bad_utf8_offset)
    ∷ (partial, partial)
    ∷ (bad_partial, bad_partial)
    ∷ (internal, internal)
    ∷ (bad_count, bad_count)
    ∷ (recursion_limit, recursion_limit)
    ∷ (null_work_space_limit, null_work_space_limit)
    ∷ (bad_newline, bad_newline)
    ∷ []

unfoldable pub match_text : MatchText → Option MatchError → MatchText
match_text text none = text
match_text text (some name) = named name

-- `RKStringFromMatchErrorCode`
unfoldable pub string_from_match_error_code : MatchCode → MatchText
string_from_match_error_code (results n) = empty_text
string_from_match_error_code (failed n) =
    match_text (unknown_with_number n) (match_switch match_cases n)

-- `RKCharactersFromMatchErrorCode`
unfoldable pub characters_from_match_error_code : MatchCode → MatchText
characters_from_match_error_code (results n) = empty_text
characters_from_match_error_code (failed n) = match_text unknown (match_switch match_cases n)
