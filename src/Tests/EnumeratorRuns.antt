-- ===== src/Tests/EnumeratorRuns.antt =====
-- The enumerator of Source/RKEnumerator.m on the ASCII text "aa". The first regex matches one
-- character wherever there is one, the second one the empty text everywhere.
use regexkit.Base.{
  ◌==◌, get_or, ℕ, ◌+◌, ◌≡◌, ◌≤◌, ◌<◌, refl, arith, true, false, some, none, List, [], ◌∷◌, ok,
  out_of_fuel, ltb, Bool-cases, inl, inr, if◌then◌else◌, some-injective, sym, ap, ltb→lt, ◌∙◌, ◌⊎◌,
}
use regexkit.Foundation.{not_found, NsRange, make_range, StringBuffer, ascii}
use regexkit.Enumerator.Answers.{Matcher, CaptureNames}
use regexkit.Enumerator.{no_range, Enumerator, convert_all}
use regexkit.Unicode.{convert_utf8_to_utf16_range}
use regexkit.Enumerator.Progress.{
  IsSound, IsActive, all_objects, all_objects-enough, all_objects-empty,
}

abbrev text : StringBuffer
text = record { units = 2; characters = 97 ∷ 97 ∷ []; length = 2; encoding = ascii }

abbrev one_character : Matcher
one_character = record {
  capture_count = 1;
  get_ranges = λ r. if ltb 0 r.length then some (make_range r.location 1 ∷ []) else none;
}

abbrev empty_text : Matcher
empty_text = record { capture_count = 1; get_ranges = λ r. some (make_range r.location 0 ∷ []) }

abbrev start : Enumerator
start = record {
  at = 0;
  search = make_range 0 2;
  utf8_ranges = [];
  utf16_ranges = [];
  has_performed_match = false;
}

start-IsActive : IsActive text start
start-IsActive = record { within = omega arith; small = omega arith; reached = omega arith }

answer :
    (r : NsRange) (ranges : List NsRange)
    → one_character.get_ranges r ≡ some ranges
    → (0 < r.length) × (ranges ≡ make_range r.location 1 ∷ [])
answer r ranges e = elim (Bool-cases (ltb 0 r.length)) [
  | inl filled ↦ (
    ltb→lt 0 r.length filled,
    some-injective ranges (make_range r.location 1 ∷ [])
        (sym e ∙ ap (λ b. if b then some (make_range r.location 1 ∷ []) else none) filled),
  )
  | inr empty ↦ absurd (
      ground
        (arith, sym (ap (λ b. if b then some (make_range r.location 1 ∷ []) else none) empty) ∙ e))
]

low_cases : (n : ℕ) → n < 2 → (n ≡ 0) ⊎ (n ≡ 1)
low_cases n small = ground arith

one_character-converts :
    (r : NsRange) (ranges : List NsRange)
    → r.location + r.length ≤ 2
    → one_character.get_ranges r ≡ some ranges
    → (converted : List NsRange) × (convert_all one_character text ranges ≡ ok converted)
unfolding convert_all convert_utf8_to_utf16_range
one_character-converts r ranges inside e =
    let (filled, same) = answer r ranges e in
    elim (low_cases r.location (omega (arith, inside, filled))) [
      | inl zero_at ↦ (make_range 0 1 ∷ [], rw (same, zero_at) refl)
      | inr one_at ↦ (make_range 1 1 ∷ [], rw (same, one_at) refl)
    ]

empty_text-converts : convert_all empty_text text (make_range 0 0 ∷ []) ≡ ok (make_range 0 0 ∷ [])
unfolding convert_all convert_utf8_to_utf16_range
empty_text-converts = refl

one_character-IsSound : IsSound one_character text
one_character-IsSound = record {
  starts = λ r ranges inside e. rw ((answer r ranges e).1) (omega arith);
  ends = λ r ranges inside e. rw ((answer r ranges e).1) (omega (arith, (answer r ranges e).0));
  converts = λ r ranges inside e. one_character-converts r ranges inside e;
}

all_objects-enough_example :
    (objects : List (List NsRange)) × (all_objects one_character text 3 start ≡ ok objects)
all_objects-enough_example =
    all_objects-enough one_character text 3 start one_character-IsSound
      (λ r ranges e. rw ((answer r ranges e).1) (omega arith)) start-IsActive (omega arith)

all_objects-empty_example : all_objects empty_text text 100 start ≡ out_of_fuel
all_objects-empty_example =
    all_objects-empty empty_text text 100 start (make_range 0 0 ∷ []) (make_range 0 0 ∷ [])
      start-IsActive refl refl empty_text-converts

-- The whole match has a name of one letter.
abbrev names : CaptureNames
names = record {
  is_valid = λ name. true;
  index_for =
      λ name ranges. ok (if (get_or ranges 0 no_range).location == not_found then not_found else 0);
}
