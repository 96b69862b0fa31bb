-- ===== src/Options/Documented.antt =====
-- The functions of Source/Headers/RegexKit/RKUtility.h for options, with what the header documents.
use regexkit.Base.{
  append-nil, ℕ, zero, suc, ◌≡◌, ◌<◌, ◌↔◌, refl, arith, Bool, true, false, ◌&&◌, ◌||◌, if_either,
  ltb, Option, none, some, List, [], ◌∷◌, ◌++◌, sym, ap, ◌∙◌, Bool-cases, inl, inr,
}
use regexkit.Options.{
  Mask, MatchOption, CompileOption, BuildConfig, match_bit, compile_bit, build_bit, newline_mask,
  NewlineText, string_from_newline_option, OptionText, newline, remain, no_options, has, any_bit,
  scan, newline_part, remaining, remain_part, decode, match_options, compile_options, build_options,
  array_from_match_option, array_from_compile_option, array_from_build_config,
}
use regexkit.Options.RoundTrip.{
  option_bit, scan-decoded, newline_bits, newline-bits, newline_mask-bits, all_bits, decode-bits,
  any_bit-false,
}
use regexkit.Options.Names.{
  names, IsIn, unknown_bits, names-append, names-scan-IsIn, names-scan-set, names-bits,
  scan-no_bits, decode-unknown_bits, option_bit-has, names-or_no_options, match_options_complete,
  compile_options_complete, build_options_complete,
}

-- A set bit that is neither of the newline nor of an option.
pub record IsUnknown {O : Type 0} (bit : O → Option ℕ) (m : Mask) (k : ℕ) : Type 0 where
  pub set : m k ≡ true
  pub no_newline : newline_mask k ≡ false
  pub no_option : (o : O) → option_bit (bit o) k ≡ false

-- "an array representation of the bits in string form", and "Returns NoOptions if no options are set."
pub record ArrayDocumented {O : Type 0} (bit : O → Option ℕ) (from : Mask → List (OptionText O))
    (m : Mask) (k : ℕ) : Type 0 where
  pub each : (o : O) → IsIn o (names (from m)) ↔ (has m (bit o) ≡ true)
  pub bits : all_bits bit (from m) k ≡ m k
  pub unknown : (unknown_bits (from m) k ≡ true) ↔ IsUnknown bit m k
  pub nothing : (from m ≡ no_options ∷ []) ↔ (any_bit m 32 ≡ false)

-- `RKStringFromNewlineOption`, `RKArrayFromMatchOption`, `RKArrayFromCompileOption` and
-- `RKArrayFromBuildConfig`
pub record OptionsDocumented (newline_text : Mask → NewlineText)
    (from_match : Mask → List (OptionText MatchOption))
    (from_compile : Mask → List (OptionText CompileOption))
    (from_build : Mask → List (OptionText BuildConfig)) (m : Mask) (k : ℕ) : Type 0 where
  pub line : newline_bits (newline_text m) k ≡ (m k && newline_mask k)
  pub of_match : ArrayDocumented match_bit from_match m k
  pub of_compile : ArrayDocumented compile_bit from_compile m k
  pub of_build : ArrayDocumented build_bit from_build m k

any_bit-clear : (m : Mask) (n : ℕ) → ((k : ℕ) → k < n → m k ≡ false) → any_bit m n ≡ false
unfolding any_bit
any_bit-clear m zero h = refl
any_bit-clear m (suc n) h =
    rw (h n (omega arith)) (any_bit-clear m n (λ k e. h k (omega (arith, e))))

clear_rest : (a b : Bool) → b ≡ false → (a && b) ≡ false
clear_rest a b h = ground (arith, h)

abbrev is_small : Option ℕ → Bool
is_small none = true
is_small (some j) = ltb j 32

clear_option :
    (m : Mask) (b : Option ℕ) → is_small b ≡ true → any_bit m 32 ≡ false → has m b ≡ false
clear_option m none s h = refl
clear_option m (some j) s h = any_bit-false m 32 j (ground (arith, s)) h

module _ {O : Type 0} (bit : O → Option ℕ) where
  abbrev are_small : List O → Bool
  are_small [] = true
  are_small (o ∷ os) = is_small (bit o) && are_small os

  scan-clear :
      (options : List O) (m d : Mask)
      → are_small options ≡ true
      → any_bit m 32 ≡ false
      → (scan bit options m d).0 ≡ []
  unfolding scan
  scan-clear [] m d s h = refl
  scan-clear (o ∷ options) m d s h =
      rw (clear_option m (bit o) (ground (arith, s)) h)
        (scan-clear options m d (ground (arith, s)) h)

  decode-IsUnknown :
      (options : List O) (start m : Mask) (k : ℕ)
      → ((o : O) → IsIn o options)
      → (start k ≡ true → newline_mask k ≡ true)
      → k < 32
      → (unknown_bits (decode bit options start m) k ≡ true) ↔ IsUnknown bit m k
  decode-IsUnknown options start m k complete only e =
      let s = scan bit options m start in
      let shown = decode-unknown_bits bit options start m k e in
      let decoded = scan-decoded bit options m start k in
      (
        (λ h.
            let r = sym shown ∙ h in
            let here : m k ≡ true = ground (arith, r) in
            record {
              set = here;
              no_newline = ground (arith, r);
              no_option = λ o. elim (Bool-cases (option_bit (bit o) k)) [
                | inl f ↦
                    let found =
                      names-bits bit s.0 o k
                        (names-scan-IsIn bit options m start o (complete o)
                          (option_bit-has bit m (bit o) k here f))
                        f in
                    absurd (ground (arith, r, decoded, found))
                | inr f ↦ f
              ];
            }),
        (λ u.
            let clear = scan-no_bits bit options m start k u.no_option in
            let none_yet : start k ≡ false = elim (Bool-cases (start k)) [
              | inl f ↦ absurd (ground (arith, u.no_newline, only f))
              | inr f ↦ f
            ] in
            shown ∙ rw (decoded, clear, none_yet, u.set, u.no_newline) refl),
      )

  plain_parts : (m r : Mask) → names (newline_part bit m ++ remain_part bit r) ≡ []
  plain_parts m r =
      let line : names (newline_part bit m) ≡ [] =
        if_either (λ ts. names ts ≡ []) (m 22 || (m 21 || m 20))
          (newline (string_from_newline_option m) ∷ []) [] (λ h. refl) (λ h. refl) in
      let rest : names (remain_part bit r) ≡ [] =
        if_either (λ ts. names ts ≡ []) (any_bit r 32) (remain r ∷ []) [] (λ h. refl) (λ h. refl) in
      names-append bit (newline_part bit m) (remain_part bit r) ∙ rw (line, rest) refl

  decode-names :
      (options : List O) (start m : Mask)
      → names (decode bit options start m) ≡ names (scan bit options m start).0
  unfolding decode
  decode-names options start m =
      let s = scan bit options m start in
      let r = remaining bit m s.1 in
      let parts = newline_part bit m ++ remain_part bit r in
      names-or_no_options bit (s.0 ++ parts)
      ∙ (names-append bit s.0 parts ∙ rw (plain_parts m r) (append-nil (names s.0)))

  decode-no_options :
      (options : List O) (start m : Mask)
      → are_small options ≡ true
      → any_bit m 32 ≡ false
      → decode bit options start m ≡ no_options ∷ []
  unfolding decode
  decode-no_options options start m s h =
      let high = any_bit-false m 32 22 (omega arith) h in
      let middle = any_bit-false m 32 21 (omega arith) h in
      let low = any_bit-false m 32 20 (omega arith) h in
      let r = remaining bit m (scan bit options m start).1 in
      let rest : any_bit r 32 ≡ false =
        any_bit-clear r 32 (λ k e. clear_rest _ (m k) (any_bit-false m 32 k e h)) in
      rw (scan-clear options m start s h, high, middle, low, rest) refl

  documented :
      (options : List O) (start m : Mask) (k : ℕ)
      → ((o : O) → IsIn o options)
      → are_small options ≡ true
      → ((j : ℕ) → start j ≡ true → newline_mask j ≡ true)
      → k < 32
      → ArrayDocumented bit (λ w. decode bit options start w) m k
  documented options start m k complete s only e = record {
    each = λ o. (
      (λ i. names-scan-set bit options m start o (rw (decode-names options start m) at i)),
      (λ h.
          rw (decode-names options start m) (names-scan-IsIn bit options m start o (complete o) h)),
    );
    bits = decode-bits bit options start m k e (only k);
    unknown = decode-IsUnknown options start m k complete (only k) e;
    nothing = (
      (λ h. any_bit-clear m 32 (λ j f.
          sym (decode-bits bit options start m j f (only j)) ∙ ap (λ ts. all_bits bit ts j) h)),
      decode-no_options options start m s,
    );
  }

-- The functions name an option exactly where its bit is set in the word. Their strings have the bits
-- of the word and no others: those of the named options, of the newline, and of the text for the
-- options that remain unknown, which shows exactly the set bits that are neither of the newline nor of
-- an option. They give the name of no options exactly for a word without bits. The text of the newline
-- has the newline bits of the word.
pub options-documented :
    (m : Mask) (k : ℕ)
    → k < 32
    → OptionsDocumented string_from_newline_option array_from_match_option array_from_compile_option
        array_from_build_config m k
unfolding array_from_match_option array_from_compile_option array_from_build_config
    string_from_newline_option
options-documented m k e = record {
  line = newline-bits (m 22) (m 21) (m 20) k ∙ newline_mask-bits m k;
  of_match =
      documented match_bit match_options newline_mask m k match_options_complete refl (λ j h. h) e;
  of_compile =
      documented compile_bit compile_options newline_mask m k compile_options_complete refl
        (λ j h. h) e;
  of_build =
      documented build_bit build_options (λ j. false) m k build_options_complete refl
        (λ j h. absurd (ground (arith, h))) e;
}
