-- ===== src/Collections/SetDocumented.antt =====
-- The methods of Source/NSSet.m do what Source/Headers/RegexKit/NSSet.h documents of them.
use regexkit.Base.{
  ◌≡◌, refl, sym, ap, ◌∙◌, arith, inl, inr, ◌==◌, Bool, true, false, not, ◌&&◌, ◌||◌, Bool-cases,
  List, [], ◌∷◌, length,
}
use regexkit.Collections.Matching.{select}
use regexkit.Collections.SetActions.{
  SetOf, has, SetObject, no_object, one, first_match, add_each, perform, do_set_action, is_object,
  any_object_matching_regex, contains_object_matching_regex, count_of_objects_matching_regex,
  set_by_matching_objects, remove_objects_matching_regex, add_objects_from_set,
  add_objects_from_array,
}
use regexkit.Collections.SetInterface.{
  AnyMatch, found, nowhere, NsSetDocumented, NsMutableSetDocumented, set_methods,
  mutable_set_methods, Respects, has-select, member-add_each, member-remove_each,
}

module _ {A : Type 0} (F : SetOf A) (is_matched : A → Bool) where
  open F use {Set, same, objects, member, init_with_objects, add_object, remove_object}

  -- Where the loop for the first match ends.
  data Ends (xs : List A) : SetObject F is_matched → Type 0 where
    at : (x : A) → has same x xs ≡ true → is_matched x ≡ true → Ends xs (one x)
    past : select is_matched xs ≡ [] → Ends xs no_object

  later-Ends :
      (y : A) (ys : List A) (o : SetObject F is_matched)
      → is_matched y ≡ false
      → Ends ys o
      → Ends (y ∷ ys) o
  unfolding has
  later-Ends y ys o miss (at x there hit) = at x (ground (arith, there)) hit
  later-Ends y ys o miss (past none_there) = past (rw miss none_there)

  first_match-Ends : (xs : List A) → Ends xs (first_match F is_matched xs)
  unfolding first_match has
  first_match-Ends [] = past refl
  first_match-Ends (x ∷ xs) = elim (Bool-cases (is_matched x)) [
    | inl hit ↦ rw hit (at x (ground (arith, F.same-refl x)) hit)
    | inr miss ↦ rw miss (later-Ends x xs (first_match F is_matched xs) miss (first_match-Ends xs))
  ]

  Ends-AnyMatch :
      (s : Set) (o : SetObject F is_matched) → Ends (objects s) o → AnyMatch F is_matched s o
  Ends-AnyMatch s o (at x there hit) = found x (F.member-objects s x ∙ there) hit
  Ends-AnyMatch s o (past none_there) = nowhere none_there

  is_object-first_match :
      (xs : List A)
      → is_object F is_matched (first_match F is_matched xs)
        ≡ not (length (select is_matched xs) == 0)
  unfolding first_match
  is_object-first_match [] = refl
  is_object-first_match (x ∷ xs) = elim (Bool-cases (is_matched x)) [
    | inl hit ↦ rw hit (ground arith)
    | inr miss ↦ rw miss (is_object-first_match xs)
  ]

  -- Of the objects of a set: those that are in it and matched.
  select-member :
      (s : Set) (x : A)
      → Respects F is_matched
      → has same x (select is_matched (objects s)) ≡ member s x && is_matched x
  select-member s x alike =
      has-select F is_matched x (objects s) alike
      ∙ ap (λ b. b && is_matched x) (sym (F.member-objects s x))

  added-member :
      (s other : Set) (x : A)
      → Respects F is_matched
      → member (add_each F is_matched s (select is_matched (objects other))) x
        ≡ member s x || (member other x && is_matched x)
  added-member s other x alike =
      member-add_each F is_matched s (select is_matched (objects other)) x
      ∙ ap (λ b. member s x || b) (select-member other x alike)

  -- The methods of the additions to the sets do what the header documents of them, over sets that
  -- keep to the documentation of Foundation, where objects that are the same are matched alike.
  pub set_methods-documented :
      Respects F is_matched
      → NsSetDocumented F is_matched (set_methods F is_matched)
        × NsMutableSetDocumented F is_matched (mutable_set_methods F is_matched)
  unfolding set_methods mutable_set_methods any_object_matching_regex contains_object_matching_regex
      count_of_objects_matching_regex set_by_matching_objects remove_objects_matching_regex
      add_objects_from_set add_objects_from_array do_set_action perform
  set_methods-documented alike = (
    record {
      any-AnyMatch = λ s. Ends-AnyMatch s _ (first_match-Ends (objects s));
      contains-select = λ s. is_object-first_match (objects s);
      count-select = λ s. refl;
      set-member = λ s. (
        init_with_objects (select is_matched (objects s)),
        refl,
        λ x. F.member-init (select is_matched (objects s)) x ∙ select-member s x alike,
      );
    },
    record {
      remove-member = λ s x.
          member-remove_each F is_matched s (select is_matched (objects s)) x
          ∙ ground (arith, select-member s x alike);
      add_array-member = λ s xs. (
        _,
        refl,
        λ x.
            added-member s (init_with_objects xs) x alike
            ∙ ap (λ b. member s x || (b && is_matched x)) (F.member-init xs x),
      );
      add_set-member = λ s other. (_, refl, λ x. added-member s other x alike);
      add_self-member = λ s. refl;
    },
  )
