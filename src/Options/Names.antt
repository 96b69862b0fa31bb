-- ===== src/Options/Names.antt =====
-- The names and the unknown bits in the arrays that Source/RKUtility.m makes of a word of options.
use regexkit.Base.{
  subst, ◌⊎◌, ℕ, ◌≡◌, ◌<◌, refl, arith, true, false, ◌||◌, if_either, Option, none, some, List, [],
  ◌∷◌, ◌++◌, sym, ap, ◌∙◌, inl, inr,
}
use regexkit.Options.{
  build_backslash_r_any_crlr, build_backslash_r_unicode, build_unicode_properties, build_utf8,
  compile_anchored, compile_auto_callout, compile_backslash_r_any_crlr, compile_backslash_r_unicode,
  compile_caseless, compile_dollar_end_only, compile_dot_all, compile_dup_names, compile_extended,
  compile_extra, compile_first_line, compile_multiline, compile_no_auto_capture, compile_no_options,
  compile_no_utf8_check, compile_ungreedy, compile_utf8, match_anchored, match_backslash_r_any_crlr,
  match_backslash_r_unicode, match_no_utf8_check, match_not_beginning_of_line, match_not_empty,
  match_not_end_of_line, match_partial, Mask, MatchOption, CompileOption, BuildConfig,
  string_from_newline_option, OptionText, named, newline, remain, no_options, has, with_bit,
  any_bit, scan, newline_part, remaining, remain_part, or_no_options, decode, match_options,
  compile_options, build_options,
}
use regexkit.Options.RoundTrip.{option_bit, all_bits, any_bit-false}

-- The options that a list of strings names.
abbrev pub names : {O : Type 0} → List (OptionText O) → List O
names [] = []
names (named o ∷ ts) = o ∷ names ts
names (newline t ∷ ts) = names ts
names (remain r ∷ ts) = names ts
names (no_options ∷ ts) = names ts

-- The option is in the list.
abbrev pub IsIn : {O : Type 0} → O → List O → Type 0
IsIn o [] = ⊥
IsIn o (p ∷ os) = (o ≡ p) ⊎ IsIn o os

-- The bits that the text for options that remain unknown shows.
abbrev pub unknown_bits : {O : Type 0} → List (OptionText O) → Mask
unknown_bits [] k = false
unknown_bits (named o ∷ ts) k = unknown_bits ts k
unknown_bits (newline t ∷ ts) k = unknown_bits ts k
unknown_bits (remain r ∷ ts) k = r k || unknown_bits ts k
unknown_bits (no_options ∷ ts) k = unknown_bits ts k

module _ {O : Type 0} (bit : O → Option ℕ) where
  pub names-append : (ts us : List (OptionText O)) → names (ts ++ us) ≡ names ts ++ names us
  names-append [] us = refl
  names-append (named o ∷ ts) us = ap (λ os. o ∷ os) (names-append ts us)
  names-append (newline t ∷ ts) us = names-append ts us
  names-append (remain r ∷ ts) us = names-append ts us
  names-append (no_options ∷ ts) us = names-append ts us

  pub names-scan-IsIn :
      (options : List O) (m d : Mask) (o : O)
      → IsIn o options
      → has m (bit o) ≡ true
      → IsIn o (names (scan bit options m d).0)
  unfolding scan
  names-scan-IsIn [] m d o i h = absurd i
  names-scan-IsIn (p ∷ options) m d o (inl same) h =
      let here : has m (bit p) ≡ true = subst (λ q. has m (bit q) ≡ true) same h in
      rw here (inl same)
  names-scan-IsIn (p ∷ options) m d o (inr later) h =
      if_either {A = List (OptionText O) × Mask} (λ r. IsIn o (names r.0)) (has m (bit p)) _ _
        (λ e. inr (names-scan-IsIn options m (with_bit d (bit p)) o later h))
        (λ e. names-scan-IsIn options m d o later h)

  pub names-scan-set :
      (options : List O) (m d : Mask) (o : O)
      → IsIn o (names (scan bit options m d).0)
      → has m (bit o) ≡ true
  unfolding scan
  names-scan-set [] m d o i = absurd i
  names-scan-set (p ∷ options) m d o i =
      if_either {A = List (OptionText O) × Mask} (λ r. IsIn o (names r.0) → has m (bit o) ≡ true)
        (has m (bit p)) _ _
        (λ e f. elim f [
          | inl same ↦ subst (λ q. has m (bit q) ≡ true) (sym same) e
          | inr later ↦ names-scan-set options m (with_bit d (bit p)) o later
        ])
        (λ e. names-scan-set options m d o) i

  pub names-bits :
      (ts : List (OptionText O)) (o : O) (k : ℕ)
      → IsIn o (names ts)
      → option_bit (bit o) k ≡ true
      → all_bits bit ts k ≡ true
  names-bits [] o k i h = absurd i
  names-bits (named p ∷ ts) o k (inl same) h =
      let here : option_bit (bit p) k ≡ true = subst (λ q. option_bit (bit q) k ≡ true) same h in
      rw here refl
  names-bits (named p ∷ ts) o k (inr later) h =
      let rest = names-bits ts o k later h in ground (arith, rest)
  names-bits (newline t ∷ ts) o k i h = let rest = names-bits ts o k i h in ground (arith, rest)
  names-bits (remain r ∷ ts) o k i h = let rest = names-bits ts o k i h in ground (arith, rest)
  names-bits (no_options ∷ ts) o k i h = names-bits ts o k i h

  pub scan-no_bits :
      (options : List O) (m d : Mask) (k : ℕ)
      → ((o : O) → option_bit (bit o) k ≡ false)
      → all_bits bit (scan bit options m d).0 k ≡ false
  unfolding scan
  scan-no_bits [] m d k h = refl
  scan-no_bits (o ∷ options) m d k h =
      if_either {A = List (OptionText O) × Mask} (λ r. all_bits bit r.0 k ≡ false) (has m (bit o)) _
        _ (λ e. rw (h o) (scan-no_bits options m (with_bit d (bit o)) k h))
        (λ e. scan-no_bits options m d k h)

  unknown_bits-append :
      (ts us : List (OptionText O)) (k : ℕ)
      → unknown_bits (ts ++ us) k ≡ (unknown_bits ts k || unknown_bits us k)
  unknown_bits-append [] us k = refl
  unknown_bits-append (named o ∷ ts) us k = unknown_bits-append ts us k
  unknown_bits-append (newline t ∷ ts) us k = unknown_bits-append ts us k
  unknown_bits-append (remain r ∷ ts) us k =
      let rest = unknown_bits-append ts us k in ground (arith, rest)
  unknown_bits-append (no_options ∷ ts) us k = unknown_bits-append ts us k

  unknown_bits-scan :
      (options : List O) (m d : Mask) (k : ℕ) → unknown_bits (scan bit options m d).0 k ≡ false
  unfolding scan
  unknown_bits-scan [] m d k = refl
  unknown_bits-scan (o ∷ options) m d k =
      if_either {A = List (OptionText O) × Mask} (λ r. unknown_bits r.0 k ≡ false) (has m (bit o)) _
        _ (λ e. unknown_bits-scan options m (with_bit d (bit o)) k)
        (λ e. unknown_bits-scan options m d k)

  unknown_bits-or_no_options :
      (ts : List (OptionText O)) (k : ℕ) → unknown_bits (or_no_options bit ts) k ≡ unknown_bits ts k
  unknown_bits-or_no_options [] k = refl
  unknown_bits-or_no_options (t ∷ ts) k = refl

  -- The text for unknown options shows what the scan has not decoded.
  pub decode-unknown_bits :
      (options : List O) (start m : Mask) (k : ℕ)
      → k < 32
      → unknown_bits (decode bit options start m) k ≡ remaining bit m (scan bit options m start).1 k
  unfolding decode
  decode-unknown_bits options start m k e =
      let s = scan bit options m start in
      let r = remaining bit m s.1 in
      let parts = newline_part bit m ++ remain_part bit r in
      let front = unknown_bits-append s.0 parts k in
      let back = unknown_bits-append (newline_part bit m) (remain_part bit r) k in
      let line : unknown_bits (newline_part bit m) k ≡ false =
        if_either (λ ts. unknown_bits ts k ≡ false) (m 22 || (m 21 || m 20))
          (newline (string_from_newline_option m) ∷ []) [] (λ h. refl) (λ h. refl) in
      let rest : unknown_bits (remain_part bit r) k ≡ r k =
        if_either (λ ts. unknown_bits ts k ≡ r k) (any_bit r 32) (remain r ∷ []) []
          (λ h. ground arith) (λ h. sym (any_bit-false r 32 k e h)) in
      unknown_bits-or_no_options (s.0 ++ parts) k
      ∙ (front ∙ rw (unknown_bits-scan options m start k, back, line, rest) refl)

  pub option_bit-has :
      (m : Mask) (b : Option ℕ) (k : ℕ) → m k ≡ true → option_bit b k ≡ true → has m b ≡ true
  option_bit-has m none k h e = absurd (ground (arith, e))
  option_bit-has m (some j) k h e =
      let same : k ≡ j = ground (arith, e) in subst (λ i. m i ≡ true) same h

  pub names-or_no_options : (ts : List (OptionText O)) → names (or_no_options bit ts) ≡ names ts
  names-or_no_options [] = refl
  names-or_no_options (t ∷ ts) = refl

-- The functions test for every option.
pub match_options_complete : (o : MatchOption) → IsIn o match_options
match_options_complete match_anchored = inl refl
match_options_complete match_not_beginning_of_line = inr (inl refl)
match_options_complete match_not_end_of_line = inr (inr (inl refl))
match_options_complete match_not_empty = inr (inr (inr (inl refl)))
match_options_complete match_no_utf8_check = inr (inr (inr (inr (inl refl))))
match_options_complete match_partial = inr (inr (inr (inr (inr (inl refl)))))
match_options_complete match_backslash_r_any_crlr = inr (inr (inr (inr (inr (inr (inl refl))))))
match_options_complete match_backslash_r_unicode =
    inr (inr (inr (inr (inr (inr (inr (inl refl)))))))

pub compile_options_complete : (o : CompileOption) → IsIn o compile_options
compile_options_complete compile_no_options = inl refl
compile_options_complete compile_caseless = inr (inl refl)
compile_options_complete compile_multiline = inr (inr (inl refl))
compile_options_complete compile_dot_all = inr (inr (inr (inl refl)))
compile_options_complete compile_extended = inr (inr (inr (inr (inl refl))))
compile_options_complete compile_anchored = inr (inr (inr (inr (inr (inl refl)))))
compile_options_complete compile_dollar_end_only = inr (inr (inr (inr (inr (inr (inl refl))))))
compile_options_complete compile_extra = inr (inr (inr (inr (inr (inr (inr (inl refl)))))))
compile_options_complete compile_ungreedy = inr (inr (inr (inr (inr (inr (inr (inr (inl refl))))))))
compile_options_complete compile_utf8 =
    inr (inr (inr (inr (inr (inr (inr (inr (inr (inl refl)))))))))
compile_options_complete compile_no_auto_capture =
    inr (inr (inr (inr (inr (inr (inr (inr (inr (inr (inl refl))))))))))
compile_options_complete compile_no_utf8_check =
    inr (inr (inr (inr (inr (inr (inr (inr (inr (inr (inr (inl refl)))))))))))
compile_options_complete compile_auto_callout =
    inr (inr (inr (inr (inr (inr (inr (inr (inr (inr (inr (inr (inl refl))))))))))))
compile_options_complete compile_first_line =
    inr (inr (inr (inr (inr (inr (inr (inr (inr (inr (inr (inr (inr (inl refl)))))))))))))
compile_options_complete compile_dup_names =
    inr (inr (inr (inr (inr (inr (inr (inr (inr (inr (inr (inr (inr (inr (inl refl))))))))))))))
compile_options_complete compile_backslash_r_any_crlr =
    inr
      (inr (inr (inr (inr (inr (inr (inr (inr (inr (inr (inr (inr (inr (inr (inl refl)))))))))))))))
compile_options_complete compile_backslash_r_unicode = inr (
    inr (
      inr (inr (inr (inr (inr (inr (inr (inr (inr (inr (inr (inr (inr (inr (inl refl))))))))))))))))

pub build_options_complete : (o : BuildConfig) → IsIn o build_options
build_options_complete build_utf8 = inl refl
build_options_complete build_unicode_properties = inr (inl refl)
build_options_complete build_backslash_r_any_crlr = inr (inr (inl refl))
build_options_complete build_backslash_r_unicode = inr (inr (inr (inl refl)))
