-- ===== src/Additions/StringsDocumented.antt =====
-- The methods of Source/NSString.m for matches and ranges do what the header documents of them.
use regexkit.Base.{ℕ, ◌+◌, ◌<◌, ◌^◌, ◌≡◌, refl, arith, false, Option, List, [], ◌++◌, ok}
use regexkit.Foundation.{NsRange, make_range, StringBuffer}
use regexkit.Unicode.Text.{AllUnicode, buffer_of, bytes_text, units_text, bytes_text-append}
use regexkit.Regex.{MatchCode, is_out_of_range}
use regexkit.Regex.Matching.{ErrorDomain}
use regexkit.Regex.Header.{MatchingDocumented, range_in}
use regexkit.Regex.Asked.{matching_methods}
use regexkit.Regex.Documented.{IsProper, IsAnswered, matching_methods-documented}
use regexkit.Additions.{Regexes, RegexArgument, Resources, from_string_or_regex}
use regexkit.Additions.Strings.{
  utf8_options, all_bytes, text_call, ranges_of_regex, ranges_of_regex_in_range,
  ranges_of_regex_error, ranges_of_regex_in_range_error, range_of_regex, range_of_regex_in_range,
  range_of_regex_error, range_of_regex_in_range_error, is_matched_by_regex,
  is_matched_by_regex_in_range, is_matched_by_regex_error, is_matched_by_regex_in_range_error,
}
use regexkit.Additions.StringsHeader.{RangeMethods, MatchMethods, RangeDocumented, MatchDocumented}
use regexkit.Additions.Pieces.{
  SamePieces, piece_to_8, utf8_to_16-IsPiece, ranges_to_16-SamePieces, range_in-IsPiece,
  is_match-SamePieces,
}

inside_sum :
    (p m q : ℕ) → p + (m + q) < 2 ^ 31 → is_out_of_range (p + (m + q)) (make_range p m) ≡ false
inside_sum p m q small = ground (arith, small)

module _ (W : Regexes) (resources : Resources) where
  open W use {Regex, capture_count}

  unfoldable pub range_methods : RangeMethods Regex
  range_methods = record {
    ranges_of_regex = ranges_of_regex W resources;
    ranges_of_regex_error = ranges_of_regex_error W resources;
    ranges_of_regex_in_range = ranges_of_regex_in_range W resources;
    ranges_of_regex_in_range_error = ranges_of_regex_in_range_error W resources;
    range_of_regex = range_of_regex W resources;
    range_of_regex_error = range_of_regex_error W resources;
    range_of_regex_in_range = range_of_regex_in_range W resources;
    range_of_regex_in_range_error = range_of_regex_in_range_error W resources;
  }

  unfoldable pub match_methods : MatchMethods Regex
  match_methods = record {
    is_matched_by_regex = is_matched_by_regex W resources;
    is_matched_by_regex_error = is_matched_by_regex_error W resources;
    is_matched_by_regex_in_range = is_matched_by_regex_in_range W resources;
    is_matched_by_regex_in_range_error = is_matched_by_regex_in_range_error W resources;
  }

  -- The receiver is `pre`, `mid` and `post`, and the range is that of `mid`.
  abbrev pub text_of : List ℕ → List ℕ → List ℕ → List ℕ
  text_of pre mid post = pre ++ (mid ++ post)

  abbrev pub byte_range : List ℕ → List ℕ → NsRange
  byte_range pre mid = make_range (bytes_text pre) (bytes_text mid)

  -- What the arguments lead to: a regex, memory to match with, a text that pcre can take, and the
  -- answers of pcre for all of the text and for the part, whose ranges are those of parts of the text,
  -- as pcre answers for a regex and a text in UTF-8.
  pub record IsSearched (pre mid post : List ℕ) (a : RegexArgument Regex) (r : Regex) (capture : ℕ)
      (all part : Option (List NsRange)) (error part_error : Option ErrorDomain) : Type 0 where
    pub compiled : from_string_or_regex W a utf8_options ≡ ok r
    pub stack : resources.no_stack ≡ false
    pub memory : resources.no_memory ≡ false
    pub unicode : AllUnicode (text_of pre mid post)
    pub small : bytes_text (text_of pre mid post) < 2 ^ 31
    pub valid : capture < capture_count r
    pub bytes : Option (List NsRange)
    pub part_bytes : Option (List NsRange)
    pub code : MatchCode
    pub part_code : MatchCode
    pub answered :
        IsAnswered
          (text_call W resources r
            (buffer_of (text_of pre mid post))
            (all_bytes (buffer_of (text_of pre mid post))))
          code
          bytes
          error
    pub part_answered :
        IsAnswered
          (text_call W resources r (buffer_of (text_of pre mid post)) (byte_range pre mid))
          part_code
          part_bytes
          part_error
    pub pieces : SamePieces (text_of pre mid post) bytes all
    pub part_pieces : SamePieces (text_of pre mid post) part_bytes part

  whole_inside : (n : ℕ) → n < 2 ^ 31 → is_out_of_range n (make_range 0 n) ≡ false
  whole_inside n small = ground (arith, small)

  part_inside :
      (pre mid post : List ℕ)
      → bytes_text (text_of pre mid post) < 2 ^ 31
      → is_out_of_range (bytes_text (text_of pre mid post)) (byte_range pre mid) ≡ false
  part_inside pre mid post small =
      let sum : bytes_text (text_of pre mid post)
          ≡ bytes_text pre + (bytes_text mid + bytes_text post) =
        omega (arith, bytes_text-append pre (mid ++ post), bytes_text-append mid post) in
      rw sum (inside_sum (bytes_text pre) (bytes_text mid) (bytes_text post) (rw (← sum) small))

  module _ (pre mid post : List ℕ) (a : RegexArgument Regex) (r : Regex) (capture : ℕ)
      (all part : Option (List NsRange)) (error part_error : Option ErrorDomain)
      (v : IsSearched pre mid post a r capture all part error part_error) where
    abbrev text : List ℕ
    text = text_of pre mid post

    abbrev buffer : StringBuffer
    buffer = buffer_of text

    proper :
        (range : NsRange)
        → is_out_of_range (bytes_text text) range ≡ false
        → IsProper (text_call W resources r buffer range)
    proper range inside = record {
      stack = v.stack;
      memory = v.memory;
      characters = refl;
      inside = inside;
    }

    matched_all :
        (x : ℕ)
        → x < capture_count r
        → MatchingDocumented matching_methods
            (text_call W resources r buffer (all_bytes buffer))
            v.code
            v.bytes
            error
            x
            []
    matched_all x low =
        matching_methods-documented (text_call W resources r buffer (all_bytes buffer)) v.code
          v.bytes error x [] (proper (all_bytes buffer) (whole_inside (bytes_text text) v.small))
          low v.answered

    matched_part :
        (x : ℕ)
        → x < capture_count r
        → MatchingDocumented matching_methods
            (text_call W resources r buffer (byte_range pre mid))
            v.part_code
            v.part_bytes
            part_error
            x
            []
    matched_part x low =
        matching_methods-documented (text_call W resources r buffer (byte_range pre mid))
          v.part_code v.part_bytes part_error x []
          (proper (byte_range pre mid) (part_inside pre mid post v.small)) low v.part_answered

    -- For a regex that compiles, a text that pcre can take, and a part of it, the methods answer for
    -- the match of pcre in all of the text, or in the part: whether there is one, and the ranges of
    -- its captures in the code units of the text, {NSNotFound, 0} for what did not match. The search
    -- range is given in code units and pcre gets it in bytes, and the forms with an error hand out
    -- that of pcre.
    pub string_methods-documented :
        RangeDocumented range_methods buffer a
          (make_range (units_text pre) (units_text mid))
          capture
          all
          part
          error
          part_error
        × MatchDocumented match_methods buffer a
            (make_range (units_text pre) (units_text mid))
            all
            part
            error
            part_error
    unfolding range_methods match_methods ranges_of_regex ranges_of_regex_in_range
        ranges_of_regex_error ranges_of_regex_in_range_error range_of_regex range_of_regex_in_range
        range_of_regex_error range_of_regex_in_range_error is_matched_by_regex
        is_matched_by_regex_in_range is_matched_by_regex_error is_matched_by_regex_in_range_error
        matching_methods
    string_methods-documented =
        let fits : bytes_text text < 2 ^ 32 = omega (arith, v.small) in
        let some_captures : 0 < capture_count r = omega (arith, v.valid) in
        let m = matched_all 0 some_captures in
        let n = matched_part capture v.valid in
        let within = piece_to_8 text v.unicode fits pre mid post refl in
        let units = ranges_to_16-SamePieces text v.unicode fits v.bytes all v.pieces in
        let part_units =
          ranges_to_16-SamePieces text v.unicode fits v.part_bytes part v.part_pieces in
        let first =
          utf8_to_16-IsPiece text v.unicode fits (range_in v.bytes 0) (range_in all 0)
            (range_in-IsPiece text v.bytes all 0 v.pieces) in
        let own =
          utf8_to_16-IsPiece text v.unicode fits (range_in v.part_bytes capture)
            (range_in part capture)
            (range_in-IsPiece text v.part_bytes part capture v.part_pieces) in
        let same = is_match-SamePieces text v.bytes all v.pieces in
        let part_same = is_match-SamePieces text v.part_bytes part v.part_pieces in
        (
          record {
            ranges_of = rw (v.compiled, m.all, units) refl;
            ranges_of_error = rw (v.compiled, m.all_error, units) refl;
            ranges_in_range = rw (v.compiled, within, n.all, part_units) refl;
            ranges_in_range_error = rw (v.compiled, within, n.all_error, part_units) refl;
            range_of = rw (v.compiled, m.range, first) refl;
            range_of_error = rw (v.compiled, m.range_error, first) refl;
            range_in_range = rw (v.compiled, within, n.range, own) refl;
            range_in_range_error = rw (v.compiled, within, n.range_error, own) refl;
          },
          record {
            is_matched = rw (v.compiled, m.matches, same) refl;
            is_matched_error = rw (v.compiled, m.matches_error, same) refl;
            is_matched_in_range = rw (v.compiled, within, n.matches, part_same) refl;
            is_matched_in_range_error = rw (v.compiled, within, n.matches_error, part_same) refl;
          },
        )
