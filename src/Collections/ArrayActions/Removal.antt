-- ===== src/Collections/ArrayActions/Removal.antt =====
-- What the actions that change an array leave, and what a range beyond the array raises.
use regexkit.Base.{
  ℕ, suc, ◌+◌, ◌%◌, ◌≡◌, ◌≤◌, ◌<◌, refl, sym, ap, ◌∙◌, Bool, false, ◌||◌, Option, some, none, List,
  [], ◌∷◌, ◌++◌, append_assoc, inl, inr, arith, ltb, ◌==◌, lt→ltb, length, length-append,
  length-take, take, drop, Outcome, ok, raise, range_exception, ◌>>=◌, Bool-cases,
}
use regexkit.Foundation.{NsRange, word, not_found, sub_word}
use regexkit.Collections.Matching.{select, reject, positions}
use regexkit.Collections.ArrayActions.{
  ArrayAction, remove_matches, add_matches, no_object, do_array_action, perform, get_objects,
  range_or_all, ArrayResult, remove_at, remove_each, remove_objects_matching_regex,
  add_objects_from_array,
}
use regexkit.Collections.ArrayActions.Scan.{
  part, split-part, part-all, Fits, do_array_action-perform,
}

remove_at-append :
    {A : Type 0} (pre : List A) (x : A) (post : List A)
    → remove_at (pre ++ x ∷ post) (length pre) ≡ ok (pre ++ post)
unfolding remove_at
remove_at-append [] x post = refl
remove_at-append (y ∷ pre) x post = rw (remove_at-append pre x post) refl

module _ {A : Type 0} (is_matched : A → Bool) where
  -- After `x` removals, the objects in front are the first `length pre` of `length pre + x`.
  remove_each-positions :
      (pre xs post : List A) (x i : ℕ)
      → i ≡ length pre + x
      → i + length xs < word
      → remove_each (pre ++ (xs ++ post)) x (positions is_matched i xs)
        ≡ ok (pre ++ (reject is_matched xs ++ post))
  unfolding remove_each
  remove_each-positions pre [] post x i e small = refl
  remove_each-positions pre (y ∷ xs) post x i e small = elim (Bool-cases (is_matched y)) [
    | inl hit ↦
        let at : sub_word i x ≡ length pre = omega (arith, e, small) in
        rw (hit, remove_each, at, remove_at-append pre y (xs ++ post))
          (remove_each-positions pre xs post (suc x) (suc i) (omega (arith, e))
            (omega (arith, small)))
    | inr miss ↦ rw (miss) (
        ap (λ l. remove_each l x (positions is_matched (suc i) xs))
          (sym (append_assoc pre (y ∷ []) (xs ++ post)))
        ∙ (remove_each-positions (pre ++ y ∷ []) xs post x (suc i)
              (omega (arith, e, length-append pre (y ∷ []))) (omega (arith, small))
            ∙ ap ok (append_assoc pre (y ∷ []) (reject is_matched xs ++ post))))
  ]

  -- Removing the matched objects within a range that fits leaves the others of that range, in their
  -- order, and everything outside of it.
  pub remove_objects_matching_regex-reject :
      (self : List A) (range : Option NsRange)
      → Fits (range_or_all range self) self
      → remove_objects_matching_regex is_matched self range
        ≡ ok (
            take (range_or_all range self).location self
            ++ (reject is_matched (part self (range_or_all range self))
                ++ drop
                    ((range_or_all range self).location + (range_or_all range self).length)
                    self))
  unfolding remove_objects_matching_regex perform
  remove_objects_matching_regex-reject self range fits =
      let r = range_or_all range self in
      let within : length (take r.location self) ≡ r.location =
        omega (arith, length-take r.location self, fits.inside) in
      let short : length (part self r) ≤ r.length =
        omega (arith, length-take r.length (drop r.location self)) in
      let finish : Outcome (List A) → Outcome (List A) = λ o.
        ◌>>=◌ {B = ArrayResult A} o
          (λ rest. ok (record { receiver = rest; object = no_object; number = 23 }))
        >>= λ result. ok result.receiver in
      ap (λ o. o >>= λ result. ok result.receiver)
        (do_array_action-perform is_matched remove_matches self self range refl fits)
      ∙ ap finish (
          ap (λ l. remove_each l 0 (positions is_matched r.location (part self r)))
            (sym (split-part self r))
          ∙ remove_each-positions (take r.location self) (part self r)
              (drop (r.location + r.length) self) 0 r.location (omega (arith, within))
              (omega (arith, short, fits.inside, fits.small)))

  -- Adding the matched objects of another array puts them behind the receiver, in their order.
  pub add_objects_from_array-select :
      (self other : List A)
      → length other < not_found
      → add_objects_from_array is_matched self (some other) ≡ ok (self ++ select is_matched other)
  unfolding add_objects_from_array perform
  add_objects_from_array-select self other small =
      ap (λ o. o >>= λ result. ok result.receiver)
        (do_array_action-perform is_matched add_matches self other none refl
          (record { inside = omega arith; small = small }))
      ∙ rw (part-all other)

  -- A range that is not within the array raises `NSRangeException`, whatever the action, where its
  -- numbers are below the width of a machine word.
  do_array_action-beyond :
      (action : ArrayAction) (self against : List A) (r : NsRange)
      → length against < r.location + r.length
      → r.location < word
      → r.length < word
      → length against < not_found
      → do_array_action is_matched action self against (some r) ≡ raise range_exception
  unfolding do_array_action get_objects
  do_array_action-beyond action self against r beyond l n small =
      let test =
        ltb (length against) r.location || ltb (length against) ((r.location + r.length) % word) in
      elim (Bool-cases test) [
        | inl outside ↦ rw outside refl
        | inr wrapped ↦
            let near : r.location ≤ length against = ground (arith, wrapped) in
            let filled : (r.length == 0) ≡ false = ground (arith, near, beyond) in
            let far = lt→ltb (length against) (r.location + r.length) beyond in
            rw (wrapped, filled, far) refl
      ]
