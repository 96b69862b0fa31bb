-- ===== src/ErrorCodes/MatchNames.antt =====
-- What the names of the match errors have to do with their codes.
use regexkit.Base.{
  ℕ, List, [], ◌∷◌, map, Option, some, none, if◌then◌else◌, ◌==◌, ==_iff, ◌≡◌, ◌≢◌, ◌↔◌, refl, sym,
  ap, ◌∙◌, arith, inl, inr, Bool-cases, Option-cases, some-injective,
}
use regexkit.Regex.{MatchCode, failed}
use regexkit.ErrorCodes.MatchErrors.{
  MatchError, number, MatchText, empty_text, named, unknown_with_number, unknown, match_switch,
  match_cases, match_text, string_from_match_error_code, characters_from_match_error_code, no_error,
  no_match, null, bad_option, bad_magic, unknown_opcode, no_memory, no_substring, match_limit,
  callout, bad_utf8, bad_utf8_offset, partial, bad_partial, internal, bad_count, recursion_limit,
  null_work_space_limit, bad_newline,
}

-- "Returns a string representation of a RKMatchErrorCode" and "Unknown error code (#decodeErrorCode)
-- on unknown error values", which the second function gives without the number.
pub record DecodersDocumented (string characters : MatchCode → MatchText) (n : ℕ) (e : MatchError)
    : Type 0 where
  pub string_named : (string (failed n) ≡ named e) ↔ (number e ≡ n)
  pub characters_named : (characters (failed n) ≡ named e) ↔ (number e ≡ n)
  pub string_unknown :
      (string (failed n) ≡ unknown_with_number n) ↔ ((f : MatchError) → number f ≢ n)
  pub characters_unknown : (characters (failed n) ≡ unknown) ↔ ((f : MatchError) → number f ≢ n)

taken-number : (e : MatchError) → match_switch match_cases (number e) ≡ some e
unfolding match_switch number
taken-number no_error = refl
taken-number no_match = refl
taken-number null = refl
taken-number bad_option = refl
taken-number bad_magic = refl
taken-number unknown_opcode = refl
taken-number no_memory = refl
taken-number no_substring = refl
taken-number match_limit = refl
taken-number callout = refl
taken-number bad_utf8 = refl
taken-number bad_utf8_offset = refl
taken-number partial = refl
taken-number bad_partial = refl
taken-number internal = refl
taken-number bad_count = refl
taken-number recursion_limit = refl
taken-number null_work_space_limit = refl
taken-number bad_newline = refl

abbrev twice : MatchError → MatchError × MatchError
twice e = (e, e)

match_switch-number :
    (labels : List MatchError) (n : ℕ) (e : MatchError)
    → match_switch (map twice labels) n ≡ some e
    → number e ≡ n
unfolding match_switch
match_switch-number [] n e found = absurd (ground (arith, found))
match_switch-number (name ∷ labels) n e found = elim (Bool-cases (number name == n)) [
  | inl same ↦
      ap number (
        sym (
          some-injective name e (
            sym (ap (λ b. if b then some name else match_switch (map twice labels) n) same)
            ∙ found)))
      ∙ (==_iff (number name) n).0 same
  | inr other ↦
      match_switch-number labels n e
        (sym (ap (λ b. if b then some name else match_switch (map twice labels) n) other) ∙ found)
]

abbrev all_errors : List MatchError
all_errors =
    no_error ∷ no_match ∷ null ∷ bad_option ∷ bad_magic ∷ unknown_opcode ∷ no_memory ∷ no_substring
    ∷ match_limit ∷ callout ∷ bad_utf8 ∷ bad_utf8_offset ∷ partial ∷ bad_partial ∷ internal
    ∷ bad_count ∷ recursion_limit ∷ null_work_space_limit ∷ bad_newline ∷ []

abbrev named_of : MatchText → Option MatchError
named_of (named e) = some e
named_of empty_text = none
named_of (unknown_with_number n) = none
named_of unknown = none

missing-number : (n : ℕ) → match_switch match_cases n ≡ none → (f : MatchError) → number f ≢ n
missing-number n absent f same =
    ground (arith, sym (taken-number f) ∙ (ap (match_switch match_cases) same ∙ absent))

-- What both functions have in common: the text for an unknown code is no name.
text-documented :
    (text : MatchText) (n : ℕ) (e : MatchError)
    → named_of text ≡ none
    → ((match_text text (match_switch match_cases n) ≡ named e) ↔ (number e ≡ n))
      × ((match_text text (match_switch match_cases n) ≡ text) ↔ ((f : MatchError) → number f ≢ n))
unfolding match_text
text-documented text n e plain = elim (Option-cases (match_switch match_cases n)) [
  | inl absent ↦ rw absent (
    (
      (λ h. absurd (ground (arith, sym plain ∙ ap named_of h))),
      (λ same. absurd (missing-number n absent e same)),
    ),
    ((λ h. missing-number n absent), (λ h. refl)),
  )
  | inr (f, found) ↦ rw found (
    (
      (λ h. match_switch-number all_errors n e (found ∙ ap named_of h)),
      (λ same. ap named (
          some-injective f e
            (sym found ∙ (ap (match_switch match_cases) (sym same) ∙ taken-number e)))),
    ),
    (
      (λ h. absurd (ground (arith, sym plain ∙ ap named_of (sym h)))),
      (λ h. absurd (h f (match_switch-number all_errors n f found))),
    ),
  )
]

-- Both functions give the name of an error exactly for the negative of its number, and the text for
-- an unknown code, the one with its number, exactly where no error has the code.
pub decoders-documented :
    (n : ℕ) (e : MatchError)
    → DecodersDocumented string_from_match_error_code characters_from_match_error_code n e
unfolding string_from_match_error_code characters_from_match_error_code
decoders-documented n e =
    let (a, b) = text-documented (unknown_with_number n) n e refl in
    let (c, d) = text-documented unknown n e refl in
    record { string_named = a; characters_named = c; string_unknown = b; characters_unknown = d }
