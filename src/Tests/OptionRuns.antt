-- ===== src/Tests/OptionRuns.antt =====
-- The options RKMatchAnchored and RKMatchNewlineLF with a bit that no option has.
use regexkit.Base.{◌≡◌, ◌==◌, ◌||◌, refl, arith, false, [], ◌∷◌}
use regexkit.Options.{
  Mask, match_anchored, newline, newline_lf, named, no_options, scan, any_bit, decode, newline_case,
  string_from_newline_option, array_from_match_option, array_from_compile_option,
  array_from_build_config,
}
use regexkit.Options.Documented.{OptionsDocumented, options-documented}

abbrev some_options : Mask
some_options k = k == 4 || (k == 21 || k == 30)

abbrev two_options : Mask
two_options k = k == 4 || k == 21

decoded : array_from_match_option two_options ≡ named match_anchored ∷ newline newline_lf ∷ []
unfolding array_from_match_option decode scan any_bit string_from_newline_option newline_case
decoded = refl

decoded_none : array_from_match_option (λ k. false) ≡ no_options ∷ []
unfolding array_from_match_option decode scan any_bit string_from_newline_option newline_case
decoded_none = refl

options-documented_example :
    OptionsDocumented string_from_newline_option array_from_match_option array_from_compile_option
      array_from_build_config some_options 30
options-documented_example = options-documented some_options 30 (omega arith)
