-- ===== src/Enumerator/Start.antt =====
-- An enumerator of a part of a text, given as code points, starts in the midst of its search.
use regexkit.Base.{
  replicate, ℕ, ◌^◌, ◌<◌, ◌≡◌, ◌+◌, List, ◌++◌, ok, le→ltb_false, ap, ◌∙◌, refl, arith, ◌>>=◌,
  false,
}
use regexkit.Foundation.{make_range, max_range}
use regexkit.Unicode.Text.{AllUnicode, bytes_text, units_text, buffer_of, bytes_text-append}
use regexkit.Unicode.ToUtf8.{convert_utf16_to_utf8_range-text}
use regexkit.Enumerator.Answers.{Matcher}
use regexkit.Enumerator.{Enumerator, no_range, init_in_range, start_at}
use regexkit.Enumerator.Progress.{IsActive}

-- The initialiser succeeds on the code units of a part of a text of fewer than 2^32 bytes: it is
-- about to search the bytes of that part, from their start.
init_in_range-IsActive :
    (M : Matcher) (pre mid post : List ℕ)
    → AllUnicode (pre ++ (mid ++ post))
    → bytes_text (pre ++ (mid ++ post)) < 2 ^ 32
    → (e : Enumerator) × (init_in_range M
          (buffer_of (pre ++ (mid ++ post)))
          (make_range (units_text pre) (units_text mid))
        ≡ ok e)
      × (e.search ≡ make_range (bytes_text pre) (bytes_text mid))
      × (e.at ≡ bytes_text pre)
      × IsActive (buffer_of (pre ++ (mid ++ post))) e
unfolding init_in_range start_at
init_in_range-IsActive M pre mid post valid small =
    let text = buffer_of (pre ++ (mid ++ post)) in
    let bytes = make_range (bytes_text pre) (bytes_text mid) in
    let sum : bytes_text (pre ++ (mid ++ post))
        ≡ bytes_text pre + (bytes_text mid + bytes_text post) =
      bytes_text-append pre (mid ++ post)
      ∙ ap (λ n. bytes_text pre + n) (bytes_text-append mid post) in
    let start = le→ltb_false (bytes_text pre) text.length (omega (arith, sum)) in
    let end = le→ltb_false (max_range bytes) text.length (omega (arith, sum, small)) in
    (
      record {
        at = bytes_text pre;
        search = bytes;
        utf8_ranges = replicate M.capture_count no_range;
        utf16_ranges = replicate M.capture_count no_range;
        has_performed_match = false;
      },
      ap (λ o. o >>= start_at M text) (convert_utf16_to_utf8_range-text pre mid post valid small)
          ∙ rw (start, end) refl,
      refl,
      refl,
      record { within = omega (arith, sum); small = omega (arith, small); reached = omega arith },
    )
