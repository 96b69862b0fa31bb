-- ===== src/Tests/AdditionsRuns.antt =====
-- The additions to data and strings with a regex that matches the "b" in "äbc", from its third byte on.
use regexkit.Base.{
  ◌≤◌, sym, ℕ, zero, suc, ◌≡◌, ◌<◌, refl, arith, false, none, some, List, [], ◌∷◌, get_or,
}
use regexkit.Foundation.{NsRange, make_range, max_range}
use regexkit.Regex.{Memory, results}
use regexkit.Regex.Conversion.{IsCapture, answered, set}
use regexkit.Regex.Matching.{MatchCall, nowhere}
use regexkit.Regex.Documented.{IsMatch, matched}
use regexkit.Unicode.Text.{encode, encode_text, units_of, units_text, buffer_of}
use regexkit.Additions.{
  Regexes, Resources, string, match_call, from_string, from_string_or_regex_with_error,
  from_string_or_regex,
}
use regexkit.Additions.Data.{DataObject}
use regexkit.Additions.DataHeader.{NsDataDocumented}
use regexkit.Additions.DataDocumented.{IsSearched, ns_data_additions, ns_data_additions-documented}
use regexkit.Additions.Pieces.{ArePieces, piece, more, done, found}
use regexkit.Additions.Strings.{text_call}
use regexkit.Additions.StringsHeader.{RangeDocumented, MatchDocumented}
use regexkit.Additions.StringsDocumented
use regexkit.Additions.StringsDocumented.{range_methods, match_methods, string_methods-documented}

abbrev b_vectors : Memory
b_vectors zero = 2
b_vectors (suc j) = 3

abbrev world : Regexes
world = record {
  Regex = ℕ;
  regex_string = λ r. 98 ∷ [];
  compile_option = λ r. r;
  capture_count = λ r. 1;
  cached = λ s option. none;
  compile = λ s option. some option;
  exec = λ r options bytes n start m. (results 1, b_vectors);
}

abbrev resources : Resources
resources = record { stack = λ j. 0; no_stack = false; no_memory = false }

abbrev some_data : DataObject
some_data = record { bytes = 0xc3 ∷ 0xa4 ∷ 98 ∷ 99 ∷ []; no_bytes = false }

abbrev b_bytes : List NsRange
b_bytes = make_range 2 1 ∷ []

-- What pcre says is a match in every call whose range has the third byte.
b-IsCapture : (x : ℕ) → x < 1 → IsCapture 1 b_vectors x (get_or b_bytes x nowhere)
b-IsCapture zero small = answered (omega arith) (set (omega arith) (omega arith) refl)
b-IsCapture (suc x) small = absurd (omega (arith, small))

b-IsMatch :
    (c : MatchCall)
    → c.captures ≡ 1
    → c.search.location ≤ 2
    → 3 ≤ max_range c.search
    → IsMatch c 1 b_vectors b_bytes
b-IsMatch c one low high = record {
  counted = omega arith;
  starts = low;
  ordered = omega arith;
  ends = high;
  small = omega arith;
  complete = sym one;
  captured = λ x small. b-IsCapture x (rw (← one) small);
}

abbrev all_call : MatchCall
all_call = match_call world 0 0 resources false some_data.bytes (make_range 0 4)

abbrev part_call : MatchCall
part_call = match_call world 0 0 resources false some_data.bytes (make_range 2 1)

data-IsSearched :
    IsSearched world resources some_data
      (string (98 ∷ []))
      0
      (make_range 2 1)
      0
      (some b_bytes)
      (some b_bytes)
unfolding from_string_or_regex from_string_or_regex_with_error from_string
data-IsSearched = record {
  compiled = refl;
  stack = refl;
  memory = refl;
  bytes = refl;
  inside = refl;
  valid = omega arith;
  code = results 1;
  error = none;
  answered = matched 1 b_vectors b_bytes refl (b-IsMatch all_call refl (omega arith) (omega arith));
  part_code = results 1;
  part_error = none;
  part_answered =
      matched 1 b_vectors b_bytes refl (b-IsMatch part_call refl (omega arith) (omega arith));
}

ns_data_additions-documented_example :
    NsDataDocumented
      (ns_data_additions world resources)
      some_data
      (string (98 ∷ []))
      (make_range 2 1)
      0
      (some b_bytes)
      (some b_bytes)
ns_data_additions-documented_example =
    ns_data_additions-documented world resources some_data (string (98 ∷ [])) 0 (make_range 2 1) 0
      (some b_bytes) (some b_bytes) data-IsSearched

-- The text "äbc" has the "b" at its second code unit.
abbrev b_units : List NsRange
b_units = make_range 1 1 ∷ []

abbrev text_all : MatchCall
text_all = text_call world resources 0x2800 (buffer_of (0xe4 ∷ 98 ∷ 99 ∷ [])) (make_range 0 4)

abbrev text_part : MatchCall
text_part = text_call world resources 0x2800 (buffer_of (0xe4 ∷ 98 ∷ 99 ∷ [])) (make_range 2 1)

b-ArePieces : ArePieces (0xe4 ∷ 98 ∷ 99 ∷ []) b_bytes b_units
unfolding encode_text encode units_text units_of
b-ArePieces =
    more (make_range 2 1) (make_range 1 1) [] []
      (piece (0xe4 ∷ []) (98 ∷ []) (99 ∷ []) refl refl refl) done

text-IsSearched :
    StringsDocumented.IsSearched world resources
      (0xe4 ∷ [])
      (98 ∷ [])
      (99 ∷ [])
      (string (98 ∷ []))
      0x2800
      0
      (some b_units)
      (some b_units)
      none
      none
unfolding from_string_or_regex from_string_or_regex_with_error from_string encode_text encode
text-IsSearched = record {
  compiled = refl;
  stack = refl;
  memory = refl;
  unicode = (omega arith, (omega arith, (omega arith, tt)));
  small = omega arith;
  valid = omega arith;
  bytes = some b_bytes;
  part_bytes = some b_bytes;
  code = results 1;
  part_code = results 1;
  answered = matched 1 b_vectors b_bytes refl (b-IsMatch text_all refl (omega arith) (omega arith));
  part_answered =
      matched 1 b_vectors b_bytes refl (b-IsMatch text_part refl (omega arith) (omega arith));
  pieces = found b_bytes b_units b-ArePieces;
  part_pieces = found b_bytes b_units b-ArePieces;
}

string_methods-documented_example :
    RangeDocumented
      (range_methods world resources)
      (buffer_of (0xe4 ∷ 98 ∷ 99 ∷ []))
      (string (98 ∷ []))
      (make_range (units_text (0xe4 ∷ [])) (units_text (98 ∷ [])))
      0
      (some b_units)
      (some b_units)
      none
      none
    × MatchDocumented
        (match_methods world resources)
        (buffer_of (0xe4 ∷ 98 ∷ 99 ∷ []))
        (string (98 ∷ []))
        (make_range (units_text (0xe4 ∷ [])) (units_text (98 ∷ [])))
        (some b_units)
        (some b_units)
        none
        none
string_methods-documented_example =
    string_methods-documented world resources (0xe4 ∷ []) (98 ∷ []) (99 ∷ []) (string (98 ∷ []))
      0x2800 0 (some b_units) (some b_units) none none text-IsSearched
