-- ===== src/Options.antt =====
-- The options of Source/Headers/RegexKit/RegexKitTypes.h, and the functions of Source/RKUtility.m that
-- give their names. A word of 32 bits is given by its bits, and a constant by the bit it sets.
pub mod RoundTrip
pub mod Names
pub mod Documented
use regexkit.Base.{
  ℕ, zero, suc, Bool, true, false, not, ◌&&◌, ◌||◌, ◌==◌, if◌then◌else◌, Option, none, some, List,
  [], ◌∷◌, ◌++◌,
}

abbrev pub Mask : Type 0
Mask = ℕ → Bool

-- `RKMatchOption`, the constants that the functions name.
pub data MatchOption : Type 0 where
  match_anchored match_not_beginning_of_line match_not_end_of_line match_not_empty : MatchOption
  match_no_utf8_check match_partial match_backslash_r_any_crlr : MatchOption
  match_backslash_r_unicode : MatchOption

-- `RKCompileOption`
pub data CompileOption : Type 0 where
  compile_no_options compile_caseless compile_multiline compile_dot_all : CompileOption
  compile_extended compile_anchored compile_dollar_end_only compile_extra : CompileOption
  compile_ungreedy compile_utf8 compile_no_auto_capture compile_no_utf8_check : CompileOption
  compile_auto_callout compile_first_line compile_dup_names : CompileOption
  compile_backslash_r_any_crlr compile_backslash_r_unicode : CompileOption

-- `RKBuildConfig`
pub data BuildConfig : Type 0 where
  build_utf8 build_unicode_properties build_backslash_r_any_crlr : BuildConfig
  build_backslash_r_unicode : BuildConfig

-- The bit of a constant, or `none` for 0.
abbrev pub match_bit : MatchOption → Option ℕ
match_bit match_anchored = some 4
match_bit match_not_beginning_of_line = some 7
match_bit match_not_end_of_line = some 8
match_bit match_not_empty = some 10
match_bit match_no_utf8_check = some 13
match_bit match_partial = some 15
match_bit match_backslash_r_any_crlr = some 23
match_bit match_backslash_r_unicode = some 24

abbrev pub compile_bit : CompileOption → Option ℕ
compile_bit compile_no_options = none
compile_bit compile_caseless = some 0
compile_bit compile_multiline = some 1
compile_bit compile_dot_all = some 2
compile_bit compile_extended = some 3
compile_bit compile_anchored = some 4
compile_bit compile_dollar_end_only = some 5
compile_bit compile_extra = some 6
compile_bit compile_ungreedy = some 9
compile_bit compile_utf8 = some 11
compile_bit compile_no_auto_capture = some 12
compile_bit compile_no_utf8_check = some 13
compile_bit compile_auto_callout = some 14
compile_bit compile_first_line = some 18
compile_bit compile_dup_names = some 19
compile_bit compile_backslash_r_any_crlr = some 23
compile_bit compile_backslash_r_unicode = some 24

abbrev pub build_bit : BuildConfig → Option ℕ
build_bit build_utf8 = some 0
build_bit build_unicode_properties = some 1
build_bit build_backslash_r_any_crlr = some 23
build_bit build_backslash_r_unicode = some 24

-- The newline constants are the values of the bits 20 to 22 of all three.
abbrev pub newline_mask : Mask
newline_mask k = k == 20 || (k == 21 || k == 22)

-- What `RKStringFromNewlineOption` gives behind its prefix, or its text for an unknown option, which
-- shows the three bits.
pub data NewlineText : Type 0 where
  newline_default newline_cr newline_lf newline_crlf newline_any newline_any_crlf : NewlineText
  newline_unknown : Bool → NewlineText

-- The cases of the switch, by the bits 22, 21 and 20.
unfoldable pub newline_case : Bool → Bool → Bool → NewlineText
newline_case false false false = newline_default
newline_case false false true = newline_cr
newline_case false true false = newline_lf
newline_case false true true = newline_crlf
newline_case true false true = newline_any_crlf
newline_case true false false = newline_any
newline_case true true b = newline_unknown b

-- `RKStringFromNewlineOption`
unfoldable pub string_from_newline_option : Mask → NewlineText
string_from_newline_option m = newline_case (m 22) (m 21) (m 20)

-- The strings of the arrays: the name of an option, that of the newline, the text for options that
-- remain, which shows them, and the name of no options.
pub data OptionText (O : Type 0) : Type 0 where
  named : O → OptionText O
  newline : NewlineText → OptionText O
  remain : Mask → OptionText O
  no_options : OptionText O

-- `(mask & option) != 0`, and `mask | option`.
abbrev pub has : Mask → Option ℕ → Bool
has m none = false
has m (some k) = m k

abbrev pub with_bit : Mask → Option ℕ → Mask
with_bit m none k = m k
with_bit m (some j) k = m k || k == j

-- Whether any of the first bits is set.
unfoldable pub any_bit : Mask → ℕ → Bool
any_bit m zero = false
any_bit m (suc n) = m n || any_bit m n

module _ {O : Type 0} (bit : O → Option ℕ) where
  -- The tests for the options in turn, with the strings and the decoded options so far.
  unfoldable pub scan : List O → Mask → Mask → List (OptionText O) × Mask
  scan [] m decoded = ([], decoded)
  scan (o ∷ options) m decoded =
      let found = scan options m (with_bit decoded (bit o)) in
      let rest = scan options m decoded in
      if has m (bit o) then (named o ∷ found.0, found.1) else rest

  abbrev pub newline_part : Mask → List (OptionText O)
  newline_part m =
      if m 22 || (m 21 || m 20) then newline (string_from_newline_option m) ∷ [] else []

  abbrev pub remaining : Mask → Mask → Mask
  remaining m decoded k = not (decoded k || (m k && newline_mask k)) && m k

  abbrev pub remain_part : Mask → List (OptionText O)
  remain_part r = if any_bit r 32 then remain r ∷ [] else []

  abbrev pub or_no_options : List (OptionText O) → List (OptionText O)
  or_no_options [] = no_options ∷ []
  or_no_options (t ∷ ts) = t ∷ ts

  -- What the three functions have in common, which differ in their options and in what they take for
  -- decoded at first.
  unfoldable pub decode : List O → Mask → Mask → List (OptionText O)
  decode options start m =
      let s = scan options m start in
      or_no_options (s.0 ++ (newline_part m ++ remain_part (remaining m s.1)))

abbrev pub match_options : List MatchOption
match_options =
    match_anchored ∷ match_not_beginning_of_line ∷ match_not_end_of_line ∷ match_not_empty
    ∷ match_no_utf8_check ∷ match_partial ∷ match_backslash_r_any_crlr ∷ match_backslash_r_unicode
    ∷ []

abbrev pub compile_options : List CompileOption
compile_options =
    compile_no_options ∷ compile_caseless ∷ compile_multiline ∷ compile_dot_all ∷ compile_extended
    ∷ compile_anchored ∷ compile_dollar_end_only ∷ compile_extra ∷ compile_ungreedy ∷ compile_utf8
    ∷ compile_no_auto_capture ∷ compile_no_utf8_check ∷ compile_auto_callout ∷ compile_first_line
    ∷ compile_dup_names ∷ compile_backslash_r_any_crlr ∷ compile_backslash_r_unicode ∷ []

abbrev pub build_options : List BuildConfig
build_options =
    build_utf8 ∷ build_unicode_properties ∷ build_backslash_r_any_crlr ∷ build_backslash_r_unicode
    ∷ []

-- `RKArrayFromMatchOption`
unfoldable pub array_from_match_option : Mask → List (OptionText MatchOption)
array_from_match_option m = decode match_bit match_options newline_mask m

-- `RKArrayFromCompileOption`
unfoldable pub array_from_compile_option : Mask → List (OptionText CompileOption)
array_from_compile_option m = decode compile_bit compile_options newline_mask m

-- `RKArrayFromBuildConfig`
unfoldable pub array_from_build_config : Mask → List (OptionText BuildConfig)
array_from_build_config m = decode build_bit build_options (λ k. false) m
