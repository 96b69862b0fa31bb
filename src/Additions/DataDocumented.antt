-- ===== src/Additions/DataDocumented.antt =====
-- The methods of Source/NSData.m do what the header documents of them.
use regexkit.Base.{
  ℕ, ◌+◌, ◌<◌, ◌≡◌, refl, arith, ltb, ◌==◌, false, Option, List, [], get_or, length, ok,
}
use regexkit.Foundation.{NsRange}
use regexkit.RangeMacros.{equal_ranges}
use regexkit.Regex.{MatchCode, is_out_of_range}
use regexkit.Regex.Matching.{MatchCall, ErrorDomain, nowhere}
use regexkit.Regex.Header.{range_in}
use regexkit.Regex.Asked.{matching_methods}
use regexkit.Regex.Documented.{
  IsProper, IsAnswered, IsWithin, nothing_found, found_within, answer-IsWithin,
  matching_methods-documented,
}
use regexkit.Additions.{Regexes, RegexArgument, Resources, match_call, from_string_or_regex}
use regexkit.Additions.Data.{
  DataObject, whole, subdata_with_range, subdata_answer, is_matched_by_regex,
  is_matched_by_regex_in_range, range_of_regex, range_of_regex_in_range, ranges_of_regex,
  ranges_of_regex_in_range, subdata_by_matching, subdata_by_matching_in_range,
}
use regexkit.Additions.DataHeader.{NsDataAdditions, NsDataDocumented, bytes_of_match}

subdata_answer-bytes :
    (bytes : List ℕ) (answer : Option (List NsRange))
    → IsWithin (length bytes) answer
    → subdata_answer bytes (range_in answer 0) ≡ ok (bytes_of_match bytes answer)
unfolding subdata_answer subdata_with_range equal_ranges
subdata_answer-bytes bytes answer nothing_found = refl
subdata_answer-bytes bytes answer (found_within found low small) =
    let r = get_or found 0 nowhere in
    let here : (nowhere.location == r.location) ≡ false = ground (arith, small) in
    let inside : ltb (length bytes) (r.location + r.length) ≡ false = ground (arith, low) in
    rw (here, inside) refl

module _ (W : Regexes) (resources : Resources) where
  open W use {Regex, capture_count}

  unfoldable pub ns_data_additions : NsDataAdditions Regex
  ns_data_additions = record {
    is_matched_by_regex = is_matched_by_regex W resources;
    is_matched_by_regex_in_range = is_matched_by_regex_in_range W resources;
    range_of_regex = range_of_regex W resources;
    range_of_regex_in_range = range_of_regex_in_range W resources;
    ranges_of_regex = ranges_of_regex W resources;
    ranges_of_regex_in_range = ranges_of_regex_in_range W resources;
    subdata_by_matching = subdata_by_matching W resources;
    subdata_by_matching_in_range = subdata_by_matching_in_range W resources;
  }

  abbrev pub call_in : Regex → DataObject → NsRange → MatchCall
  call_in r d search = match_call W r 0 resources d.no_bytes d.bytes search

  -- What the arguments lead to: a regex, memory to match with, a search range within the bytes, and
  -- the answers of pcre for all of the data and for the range.
  pub record IsSearched (d : DataObject) (a : RegexArgument Regex) (r : Regex) (range : NsRange)
      (capture : ℕ) (all part : Option (List NsRange)) : Type 0 where
    pub compiled : from_string_or_regex W a 0 ≡ ok r
    pub stack : resources.no_stack ≡ false
    pub memory : resources.no_memory ≡ false
    pub bytes : d.no_bytes ≡ false
    pub inside : is_out_of_range (length d.bytes) range ≡ false
    pub valid : capture < capture_count r
    pub code : MatchCode
    pub error : Option ErrorDomain
    pub answered : IsAnswered (call_in r d (whole d)) code all error
    pub part_code : MatchCode
    pub part_error : Option ErrorDomain
    pub part_answered : IsAnswered (call_in r d range) part_code part part_error

  proper :
      (d : DataObject) (a : RegexArgument Regex) (r : Regex) (range search : NsRange) (capture : ℕ)
      (all part : Option (List NsRange))
      → IsSearched d a r range capture all part
      → is_out_of_range (length d.bytes) search ≡ false
      → IsProper (call_in r d search)
  proper d a r range search capture all part v inside = record {
    stack = v.stack;
    memory = v.memory;
    characters = v.bytes;
    inside = inside;
  }

  whole_inside :
      (d : DataObject) (range : NsRange)
      → is_out_of_range (length d.bytes) range ≡ false
      → is_out_of_range (length d.bytes) (whole d) ≡ false
  whole_inside d range inside = ground (arith, inside)

  -- For a regex that compiles, data with bytes and a range within them, the methods answer for the
  -- match of pcre in all of the data, or in the range: whether there is one, the ranges of its
  -- captures in bytes, and its bytes, or no bytes where there is no match.
  pub ns_data_additions-documented :
      (d : DataObject) (a : RegexArgument Regex) (r : Regex) (range : NsRange) (capture : ℕ)
      (all part : Option (List NsRange))
      → IsSearched d a r range capture all part
      → NsDataDocumented ns_data_additions d a range capture all part
  unfolding ns_data_additions is_matched_by_regex is_matched_by_regex_in_range range_of_regex
      range_of_regex_in_range ranges_of_regex ranges_of_regex_in_range subdata_by_matching
      subdata_by_matching_in_range matching_methods
  ns_data_additions-documented d a r range capture all part v =
      let some_captures : 0 < capture_count r = omega (arith, v.valid) in
      let p = proper d a r range (whole d) capture all part v (whole_inside d range v.inside) in
      let q = proper d a r range range capture all part v v.inside in
      let m =
        matching_methods-documented (call_in r d (whole d)) v.code all v.error 0 [] p some_captures
          v.answered in
      let n =
        matching_methods-documented (call_in r d range) v.part_code part v.part_error capture [] q
          v.valid v.part_answered in
      let first =
        matching_methods-documented (call_in r d range) v.part_code part v.part_error 0 [] q
          some_captures v.part_answered in
      record {
        is_matched = rw v.compiled m.matches;
        is_matched_in_range = rw v.compiled n.matches;
        range_of = rw v.compiled m.range;
        range_of_in_range = rw v.compiled n.range;
        ranges_of = rw v.compiled m.all;
        ranges_of_in_range = rw v.compiled n.all;
        subdata =
            rw (v.compiled, m.range)
              (subdata_answer-bytes d.bytes all (
                answer-IsWithin (call_in r d (whole d)) v.code all v.error p some_captures
                  v.answered));
        subdata_in_range =
            rw (v.compiled, first.range)
              (subdata_answer-bytes d.bytes part (
                answer-IsWithin (call_in r d range) v.part_code part v.part_error q some_captures
                  v.part_answered));
      }
