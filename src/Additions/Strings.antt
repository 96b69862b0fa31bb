-- ===== src/Additions/Strings.antt =====
-- Source/NSString.m: "isMatchedByRegex: methods", "rangeOfRegex: methods" and "rangesOfRegex:
-- methods", and the two conversions of Source/RKUnicode.m for a string that they call.
use regexkit.Base.{
  ℕ, Bool, false, Option, none, some, List, [], ◌∷◌, Outcome, ok, raise, ◌>>=◌, invalid_argument,
}
use regexkit.Foundation.{NsRange, make_range, StringBuffer}
use regexkit.Unicode.{convert_utf8_to_utf16_range, convert_utf16_to_utf8_range}
use regexkit.Regex.Matching.{
  MatchCall, ErrorDomain, matches_characters, matches_characters_error, range_for_characters,
  range_for_characters_error, ranges_for_characters, ranges_for_characters_error,
}
use regexkit.Additions.{Regexes, RegexArgument, Resources, match_call, from_string_or_regex}

-- `RKConvertUTF8ToUTF16RangeForString`, for the buffer of the string, or `none` for `NULL`.
unfoldable pub utf8_to_16 : Option StringBuffer → NsRange → Outcome NsRange
utf8_to_16 none r = raise invalid_argument
utf8_to_16 (some b) r = convert_utf8_to_utf16_range (some b) r

-- `RKConvertUTF16ToUTF8RangeForString`
unfoldable pub utf16_to_8 : Option StringBuffer → NsRange → Outcome NsRange
utf16_to_8 none r = raise invalid_argument
utf16_to_8 (some b) r = convert_utf16_to_utf8_range (some b) r

-- RKCompileUTF8 | RKCompileNoUTF8Check, and RKMatchNoUTF8Check.
abbrev pub utf8_options : ℕ
utf8_options = 0x2800

abbrev pub no_utf8_check : ℕ
no_utf8_check = 0x2000

-- The loop over the ranges of a match.
unfoldable pub each_to_16 : StringBuffer → List NsRange → Outcome (List NsRange)
each_to_16 b [] = ok []
each_to_16 b (r ∷ rs) = utf8_to_16 (some b) r >>= λ u. each_to_16 b rs >>= λ us. ok (u ∷ us)

unfoldable pub ranges_to_16 : StringBuffer → Option (List NsRange) → Outcome (Option (List NsRange))
ranges_to_16 b none = ok none
ranges_to_16 b (some rs) = each_to_16 b rs >>= λ us. ok (some us)

-- An answer with its error, the answer converted.
abbrev pub with_error :
    {A : Type 0} → (A → Outcome A) → A × Option ErrorDomain → Outcome (A × Option ErrorDomain)
with_error f (a, error) = f a >>= λ b. ok (b, error)

abbrev pub all_bytes : StringBuffer → NsRange
all_bytes b = make_range 0 b.length

module _ (W : Regexes) (resources : Resources) where
  open W use {Regex}

  abbrev pub text_call : Regex → StringBuffer → NsRange → MatchCall
  text_call r b range = record (match_call W r no_utf8_check resources false b.characters range) {
    length = b.length;
  }

  -- The regex for the argument, and its match in all of the string, or in the range as bytes.
  abbrev pub in_all :
      {A : Type 0} → (MatchCall → Outcome A) → StringBuffer → RegexArgument Regex → Outcome A
  in_all ask b a = from_string_or_regex W a utf8_options >>= λ r. ask (text_call r b (all_bytes b))

  abbrev pub in_part :
      {A : Type 0}
      → (MatchCall → Outcome A)
      → StringBuffer
      → RegexArgument Regex
      → NsRange
      → Outcome A
  in_part ask b a range = from_string_or_regex W a utf8_options >>= λ r.
      utf16_to_8 (some b) range >>= λ search. ask (text_call r b search)

  unfoldable pub ranges_of_regex :
      StringBuffer → RegexArgument Regex → Outcome (Option (List NsRange))
  ranges_of_regex b a = in_all ranges_for_characters b a >>= ranges_to_16 b

  unfoldable pub ranges_of_regex_in_range :
      StringBuffer → RegexArgument Regex → NsRange → Outcome (Option (List NsRange))
  ranges_of_regex_in_range b a range = in_part ranges_for_characters b a range >>= ranges_to_16 b

  unfoldable pub ranges_of_regex_error :
      StringBuffer → RegexArgument Regex → Outcome (Option (List NsRange) × Option ErrorDomain)
  ranges_of_regex_error b a = in_all ranges_for_characters_error b a >>= with_error (ranges_to_16 b)

  unfoldable pub ranges_of_regex_in_range_error :
      StringBuffer
      → RegexArgument Regex
      → NsRange
      → Outcome (Option (List NsRange) × Option ErrorDomain)
  ranges_of_regex_in_range_error b a range =
      in_part ranges_for_characters_error b a range >>= with_error (ranges_to_16 b)

  unfoldable pub range_of_regex : StringBuffer → RegexArgument Regex → Outcome NsRange
  range_of_regex b a = in_all (λ c. range_for_characters c 0) b a >>= utf8_to_16 (some b)

  unfoldable pub range_of_regex_in_range :
      StringBuffer → RegexArgument Regex → NsRange → ℕ → Outcome NsRange
  range_of_regex_in_range b a range capture =
      in_part (λ c. range_for_characters c capture) b a range >>= utf8_to_16 (some b)

  unfoldable pub range_of_regex_error :
      StringBuffer → RegexArgument Regex → Outcome (NsRange × Option ErrorDomain)
  range_of_regex_error b a =
      in_all (λ c. range_for_characters_error c 0) b a >>= with_error (utf8_to_16 (some b))

  unfoldable pub range_of_regex_in_range_error :
      StringBuffer → RegexArgument Regex → NsRange → ℕ → Outcome (NsRange × Option ErrorDomain)
  range_of_regex_in_range_error b a range capture =
      in_part (λ c. range_for_characters_error c capture) b a range
      >>= with_error (utf8_to_16 (some b))

  unfoldable pub is_matched_by_regex : StringBuffer → RegexArgument Regex → Outcome Bool
  is_matched_by_regex b a = in_all matches_characters b a

  unfoldable pub is_matched_by_regex_in_range :
      StringBuffer → RegexArgument Regex → NsRange → Outcome Bool
  is_matched_by_regex_in_range b a range = in_part matches_characters b a range

  unfoldable pub is_matched_by_regex_error :
      StringBuffer → RegexArgument Regex → Outcome (Bool × Option ErrorDomain)
  is_matched_by_regex_error b a = in_all matches_characters_error b a

  unfoldable pub is_matched_by_regex_in_range_error :
      StringBuffer → RegexArgument Regex → NsRange → Outcome (Bool × Option ErrorDomain)
  is_matched_by_regex_in_range_error b a range = in_part matches_characters_error b a range
