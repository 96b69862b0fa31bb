-- ===== src/Collections/ArrayActions/Scan.antt =====
-- The loop of `RKDoArrayAction` finds the matched objects and their indexes, and a range within the
-- array is what it runs over.
use regexkit.Base.{
  ap, sym, take-append-drop, drop-drop, take-length, ℕ, suc, ◌+◌, ◌%◌, ◌≡◌, ◌≤◌, ◌<◌, refl, ◌∙◌,
  Bool, false, Option, List, [], ◌∷◌, ◌++◌, append-nil, append_assoc, inl, inr, arith, le→ltb_false,
  ◌==◌, ==_iff, length, take, drop, Bool-cases,
}
use regexkit.Foundation.{make_range, NsRange, word, not_found}
use regexkit.Collections.Matching.{select, positions}
use regexkit.Collections.ArrayActions.{
  ArrayAction, is_index_of_first, matched, Matched, add_match, no_matches, scan, do_array_action,
  perform, after_scan, get_objects, range_or_all,
}

-- The part of a list that a range names.
abbrev pub part : {A : Type 0} → List A → NsRange → List A
part xs r = take r.length (drop r.location xs)

pub split-part :
    {A : Type 0} (xs : List A) (r : NsRange)
    → take r.location xs ++ (part xs r ++ drop (r.location + r.length) xs) ≡ xs
split-part xs r =
    ap (λ ys. take r.location xs ++ (part xs r ++ ys)) (sym (drop-drop r.location r.length xs))
    ∙ (ap (λ ys. take r.location xs ++ ys) (take-append-drop r.length (drop r.location xs))
        ∙ take-append-drop r.location xs)

pub part-all : {A : Type 0} (xs : List A) → part xs (make_range 0 (length xs)) ≡ xs
part-all xs = take-length xs

-- The range is within the array, and the array's length is a number of a machine.
pub record Fits {A : Type 0} (r : NsRange) (xs : List A) : Type 0 where
  pub inside : r.location + r.length ≤ length xs
  pub small : length xs < not_found

module _ {A : Type 0} (is_matched : A → Bool) where
  abbrev pub found : Matched A → ℕ → List A → Matched A
  found m i xs = record {
    indexes = m.indexes ++ positions is_matched i xs;
    objects = m.objects ++ select is_matched xs;
  }

  pub scan-found :
      (m : Matched A) (i : ℕ) (xs : List A) → scan is_matched false m i xs ≡ matched (found m i xs)
  unfolding scan
  scan-found m i [] = rw (append-nil m.indexes, append-nil m.objects)
  scan-found m i (x ∷ xs) = elim (Bool-cases (is_matched x)) [
    | inl yes_m ↦
        rw (yes_m, scan)
          (scan-found (add_match m i x) (suc i) xs
            ∙ rw (
              append_assoc m.indexes (i ∷ []) (positions is_matched (suc i) xs),
              append_assoc m.objects (x ∷ []) (select is_matched xs),
            ))
    | inr no_m ↦ rw (no_m, scan) (scan-found m (suc i) xs)
  ]

  pub do_array_action-scan :
      (action : ArrayAction) (self against : List A) (range : Option NsRange)
      → Fits (range_or_all range against) against
      → do_array_action is_matched action self against range
        ≡ after_scan action self (
            scan is_matched
              (is_index_of_first action)
              no_matches
              (range_or_all range against).location
              (part against (range_or_all range against)))
  unfolding do_array_action scan after_scan get_objects
  do_array_action-scan action self against range fits =
      let r = range_or_all range against in
      let one = le→ltb_false r.location (length against) (omega (arith, fits.inside)) in
      let two =
        le→ltb_false ((r.location + r.length) % word) (length against)
          (omega (arith, fits.inside, fits.small)) in
      let three = le→ltb_false (r.location + r.length) (length against) fits.inside in
      elim (Bool-cases (r.length == 0)) [
        | inr filled ↦ rw (one, two, filled, three) refl
        | inl empty ↦ rw (one, two, empty, (==_iff r.length 0).0 empty) refl
      ]

  pub do_array_action-perform :
      (action : ArrayAction) (self against : List A) (range : Option NsRange)
      → is_index_of_first action ≡ false
      → Fits (range_or_all range against) against
      → do_array_action is_matched action self against range
        ≡ perform action self (
            found no_matches
              (range_or_all range against).location
              (part against (range_or_all range against)))
  unfolding after_scan
  do_array_action-perform action self against range e fits =
      do_array_action-scan action self against range fits
      ∙ rw (
        e,
        scan-found no_matches (range_or_all range against).location
            (part against (range_or_all range against)),
      )
