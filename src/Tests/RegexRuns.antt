-- ===== src/Tests/RegexRuns.antt =====
-- `getRanges:…` of Source/RKRegex.m with a pcre that answers the match of 1 to 3 and the capture of
-- 2 to 3, of three captures.
use regexkit.Base.{
  [], ◌∷◌, List, ℕ, ◌<◌, get_or, zero, suc, refl, arith, false, none, some, range_exception,
}
use regexkit.Foundation.{NsRange, make_range}
use regexkit.Regex.{Memory, MatchCode, results}
use regexkit.Regex.Conversion.{IsCapture, answered, set}
use regexkit.Regex.Matching.{MatchCall, nowhere}
use regexkit.Regex.Header.{MatchingDocumented, MatchingRefused, InvalidRefused}
use regexkit.Regex.Asked.{matching_methods}
use regexkit.Regex.Documented.{
  IsMatch, matched, outside, matching_methods-documented, matching_methods-refused,
}

abbrev vectors : Memory
vectors zero = 1
vectors (suc zero) = 3
vectors (suc (suc zero)) = 2
vectors (suc (suc (suc j))) = 3

abbrev pcre : ℕ → ℕ → Memory → MatchCode × Memory
pcre n start m = (results 2, vectors)

vectors-IsCapture : IsCapture 2 vectors 1 (make_range 2 1)
vectors-IsCapture = answered (omega arith) (set (omega arith) (omega arith) refl)

abbrev call : MatchCall
call = record {
  exec = pcre;
  captures = 2;
  stack = λ j. 0;
  no_stack = false;
  no_memory = false;
  no_characters = false;
  length = 5;
  search = make_range 0 5;
}

abbrev spans : List NsRange
spans = make_range 1 2 ∷ make_range 2 1 ∷ []

spans-IsCapture : (x : ℕ) → x < call.captures → IsCapture 2 vectors x (get_or spans x nowhere)
spans-IsCapture zero lt = answered (omega arith) (set (omega arith) (omega arith) refl)
spans-IsCapture (suc zero) lt = vectors-IsCapture
spans-IsCapture (suc (suc x)) lt = absurd (omega (arith, lt))

pcre-IsMatch : IsMatch call 2 vectors spans
pcre-IsMatch = record {
  counted = omega arith;
  starts = omega arith;
  ordered = omega arith;
  ends = omega arith;
  small = omega arith;
  complete = refl;
  captured = spans-IsCapture;
}

matching_methods-documented_example :
    MatchingDocumented matching_methods call (results 2) (some spans) none 1 (make_range 7 7 ∷ [])
matching_methods-documented_example =
    matching_methods-documented call (results 2) (some spans) none 1 (make_range 7 7 ∷ [])
      (record { stack = refl; memory = refl; characters = refl; inside = refl }) (omega arith)
      (matched 2 vectors spans refl pcre-IsMatch)

abbrev refused_call : MatchCall
refused_call = record call { search = make_range 3 4 }

matching_methods-refused_example :
    MatchingRefused matching_methods refused_call range_exception 1 []
    × InvalidRefused matching_methods call 2
matching_methods-refused_example =
    matching_methods-refused refused_call call range_exception 1 2 [] refl (omega arith)
      (outside refl refl) refl (omega arith)
