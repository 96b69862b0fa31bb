-- ===== src/Collections/ArrayActions/Search.antt =====
-- What the actions that ask about an array answer.
use regexkit.Base.{
  ℕ, suc, ◌+◌, ◌≡◌, ◌≤◌, ◌<◌, refl, sym, ap, ◌∙◌, Bool, true, false, not, Option, some, List, [],
  ◌∷◌, ◌++◌, map, append_assoc, inl, inr, arith, ◌==◌, length, length-append, length-take, take,
  drop, get_elem?, get_elem?-append_length, Outcome, out_of_fuel, ok, raise, ◌>>=◌, Bool-cases,
}
use regexkit.Foundation.{NsRange, not_found}
use regexkit.Collections.Matching.{select, positions}
use regexkit.Collections.ArrayActions.{
  index_of_first_match, array_of_matching_objects, count_of_matching_objects,
  index_set_of_matching_objects, perform, after_scan, scan, Matched, range_or_all, ArrayResult,
  array_of, indexes_of, contains_object_matching_regex, count_of_objects_matching_regex,
  index_of_object_matching_regex, array_by_matching_objects, index_set_of_objects_matching_regex,
}
use regexkit.Collections.ArrayActions.Scan.{
  part, split-part, Fits, do_array_action-perform, do_array_action-scan,
}

module _ {A : Type 0} (is_matched : A → Bool) where
  -- `n` is the index of the first matched object of `xs`, whose first object has the index `i`, or
  -- `NSNotFound` where there is none.
  pub data FirstMatch (i : ℕ) (xs : List A) (n : ℕ) : Type 0 where
    at :
        (pre : List A) (x : A) (post : List A)
        → xs ≡ pre ++ x ∷ post
        → select is_matched pre ≡ []
        → is_matched x ≡ true
        → n ≡ i + length pre
        → FirstMatch i xs n
    nowhere : select is_matched xs ≡ [] → n ≡ not_found → FirstMatch i xs n

  -- The number that the first action leaves after the loop.
  first_number : Outcome (ArrayResult A) → Outcome ℕ
  first_number o = o >>= λ r. ok r.number

  later-FirstMatch :
      (i : ℕ) (x : A) (xs : List A) (n : ℕ)
      → is_matched x ≡ false
      → FirstMatch (suc i) xs n
      → FirstMatch i (x ∷ xs) n
  later-FirstMatch i x xs n miss (at pre y post split none_before hit e) =
      at (x ∷ pre) y post (ap (λ l. x ∷ l) split) (rw miss none_before) hit (omega (arith, e))
  later-FirstMatch i x xs n miss (nowhere no_match e) = nowhere (rw miss no_match) e

  scan-FirstMatch :
      (self : List A) (m : Matched A) (i : ℕ) (xs : List A)
      → (n : ℕ) × (first_number (after_scan index_of_first_match self (scan is_matched true m i xs))
          ≡ ok n)
        × FirstMatch i xs n
  unfolding first_number after_scan scan perform
  scan-FirstMatch self m i [] = (not_found, refl, nowhere refl refl)
  scan-FirstMatch self m i (x ∷ xs) = elim (Bool-cases (is_matched x)) [
    | inl hit ↦ (i, rw (hit, scan) refl, at [] x xs refl refl hit (omega arith))
    | inr miss ↦
        let (n, e, f) = scan-FirstMatch self m (suc i) xs in
        (n, rw (miss, scan) e, later-FirstMatch i x xs n miss f)
  ]

  -- The index that is answered, for a range that fits, is that of the first matched object within
  -- the range, or `NSNotFound` where there is none.
  pub index_of_object_matching_regex-FirstMatch :
      (self : List A) (range : Option NsRange)
      → Fits (range_or_all range self) self
      → (n : ℕ) × (index_of_object_matching_regex is_matched self range ≡ ok n)
        × FirstMatch (range_or_all range self).location (part self (range_or_all range self)) n
  unfolding index_of_object_matching_regex first_number
  index_of_object_matching_regex-FirstMatch self range fits =
      let r = range_or_all range self in
      let (n, e, f) =
        scan-FirstMatch self (record { indexes = []; objects = [] }) r.location (part self r) in
      (
        n,
        ap first_number (do_array_action-scan is_matched index_of_first_match self self range fits)
            ∙ e,
        f,
      )

  positions-select :
      (pre xs post : List A) (i : ℕ)
      → i ≡ length pre
      → map (get_elem? (pre ++ (xs ++ post))) (positions is_matched i xs)
        ≡ map some (select is_matched xs)
  positions-select pre [] post i e = refl
  positions-select pre (x ∷ xs) post i e =
      let rest =
        ap (λ l. map (get_elem? l) (positions is_matched (suc i) xs))
          (sym (append_assoc pre (x ∷ []) (xs ++ post)))
        ∙ positions-select (pre ++ x ∷ []) xs post (suc i)
            (omega (arith, e, length-append pre (x ∷ []))) in
      elim (Bool-cases (is_matched x)) [
        | inl hit ↦ rw (hit, rest, e, get_elem?-append_length pre x (xs ++ post)) refl
        | inr miss ↦ rw miss rest
      ]

  -- For a range that fits: the count is the number of the objects in the array of the matched ones,
  -- and the index set names those objects in the receiver, in the same order.
  objects_matching_regex-agree :
      (self : List A) (range : Option NsRange)
      → Fits (range_or_all range self) self
      → (objects : List A) × (indexes : List ℕ) × (array_by_matching_objects is_matched self range
          ≡ ok objects)
        × (count_of_objects_matching_regex is_matched self range ≡ ok (length objects))
        × (index_set_of_objects_matching_regex is_matched self range ≡ ok indexes)
        × (map (get_elem? self) indexes ≡ map some objects)
        × (objects ≡ select is_matched (part self (range_or_all range self)))
  unfolding array_by_matching_objects count_of_objects_matching_regex
      index_set_of_objects_matching_regex perform
  objects_matching_regex-agree self range fits =
      let r = range_or_all range self in
      let within : length (take r.location self) ≡ r.location =
        omega (arith, length-take r.location self, fits.inside) in
      (
        select is_matched (part self r),
        positions is_matched r.location (part self r),
        ap (λ o. o >>= λ x. ok (array_of is_matched x.object))
            (do_array_action-perform is_matched array_of_matching_objects self self range refl
              fits),
        ap (λ o. o >>= λ x. ok x.number)
            (do_array_action-perform is_matched count_of_matching_objects self self range refl
              fits),
        ap (λ o. o >>= λ x. ok (indexes_of is_matched x.object))
            (do_array_action-perform is_matched index_set_of_matching_objects self self range refl
              fits),
        ap (λ l. map (get_elem? l) (positions is_matched r.location (part self r)))
              (sym (split-part self r))
            ∙ positions-select (take r.location self) (part self r)
                (drop (r.location + r.length) self) r.location (sym within),
        refl,
      )

  select-append :
      (xs ys : List A) → select is_matched (xs ++ ys) ≡ select is_matched xs ++ select is_matched ys
  select-append [] ys = refl
  select-append (x ∷ xs) ys = elim (Bool-cases (is_matched x)) [
    | inl hit ↦ rw (hit, select-append xs ys) refl
    | inr miss ↦ rw (miss, select-append xs ys) refl
  ]

  FirstMatch-not_found :
      (i : ℕ) (xs : List A) (n : ℕ)
      → i + length xs < not_found
      → FirstMatch i xs n
      → not (n == not_found) ≡ not (length (select is_matched xs) == 0)
  FirstMatch-not_found i xs n small (at pre x post split none_before hit e) =
      let there : (n == not_found) ≡ false =
        ground (arith, e, small, ap length split, length-append pre (x ∷ post)) in
      rw
        (
          there,
          split,
          select-append pre (x ∷ post),
          hit,
          length-append (select is_matched pre) (x ∷ select is_matched post),
        )
        (ground arith)
  FirstMatch-not_found i xs n small (nowhere no_match e) = rw (no_match, e) refl

  number-contains :
      (o : Outcome (ArrayResult A)) (n : ℕ)
      → first_number o ≡ ok n
      → (o >>= λ r. ok (not (r.number == not_found))) ≡ ok (not (n == not_found))
  unfolding first_number
  number-contains (ok r) n e = ap (λ p. p >>= λ k. ok (not (k == not_found))) e
  number-contains (raise x) n e = ap (λ p. p >>= λ k. ok (not (k == not_found))) e
  number-contains out_of_fuel n e = ap (λ p. p >>= λ k. ok (not (k == not_found))) e

  -- An array with a range that fits contains a matched object there where any of the objects in the
  -- range is matched.
  pub contains_object_matching_regex-select :
      (self : List A) (range : Option NsRange)
      → Fits (range_or_all range self) self
      → contains_object_matching_regex is_matched self range
        ≡ ok (not (length (select is_matched (part self (range_or_all range self))) == 0))
  unfolding contains_object_matching_regex first_number
  contains_object_matching_regex-select self range fits =
      let r = range_or_all range self in
      let (n, e, f) =
        scan-FirstMatch self (record { indexes = []; objects = [] }) r.location (part self r) in
      let short : length (part self r) ≤ r.length =
        omega (arith, length-take r.length (drop r.location self)) in
      number-contains _ n (
        ap first_number (do_array_action-scan is_matched index_of_first_match self self range fits)
        ∙ e)
      ∙ ap ok (
          FirstMatch-not_found r.location (part self r) n
            (omega (arith, short, fits.inside, fits.small)) f)
