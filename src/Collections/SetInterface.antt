-- ===== src/Collections/SetInterface.antt =====
-- Source/Headers/RegexKit/NSSet.h: the additions to `NSSet` and `NSMutableSet`, with what their
-- documentation says of each method.
use regexkit.Base.{
  ℕ, ◌≡◌, refl, ◌∙◌, arith, inl, inr, ◌==◌, Bool, true, false, not, ◌&&◌, ◌||◌, Bool-cases, Option,
  some, List, [], ◌∷◌, length, Outcome, ok,
}
use regexkit.Collections.Matching.{select}
use regexkit.Collections.SetActions.{
  SetOf, has, SetObject, no_object, one, set, add_each, remove_each, any_object_matching_regex,
  contains_object_matching_regex, count_of_objects_matching_regex, set_by_matching_objects,
  remove_objects_matching_regex, add_objects_from_set, add_objects_from_array,
}

module _ {A : Type 0} (F : SetOf A) (is_matched : A → Bool) where
  open F use {Set, same, objects, member, init_with_objects, add_object, remove_object}

  -- `NSSet (RegexKitAdditions)`
  pub record NsSetAdditions : Type 0 where
    pub any_object : Set → SetObject F is_matched
    pub contains_object : Set → Bool
    pub count_of_objects : Set → ℕ
    pub set_by_matching : Set → SetObject F is_matched

  -- An object of the set that is matched, or none where none is.
  pub data AnyMatch (s : Set) : SetObject F is_matched → Type 0 where
    found : (x : A) → member s x ≡ true → is_matched x ≡ true → AnyMatch s (one x)
    nowhere : select is_matched (objects s) ≡ [] → AnyMatch s no_object

  -- What is documented of them.
  pub record NsSetDocumented (ops : NsSetAdditions) : Type 0 where
    -- "one of the objects in the receiver, or nil if the receiver contains no objects matching"
    pub any-AnyMatch : (s : Set) → AnyMatch s (ops.any_object s)
    -- "whether an object matching aRegex is present in the receiver"
    pub contains-select :
        (s : Set) → ops.contains_object s ≡ not (length (select is_matched (objects s)) == 0)
    -- "the number of objects matching aRegex in the receiver"
    pub count-select : (s : Set) → ops.count_of_objects s ≡ length (select is_matched (objects s))
    -- "a new set that contains all the objects in the receiver matching aRegex"
    pub set-member :
        (s : Set)
        → (t : Set) × (ops.set_by_matching s ≡ set t)
          × ((x : A) → member t x ≡ member s x && is_matched x)

  -- `NSMutableSet (RegexKitAdditions)`: what the receiver is afterwards.
  pub record NsMutableSetAdditions : Type 0 where
    pub remove_objects : Set → Set
    pub add_from_array : Set → Option (List A) → Outcome Set
    pub add_from_set : Bool → Set → Option Set → Outcome Set

  -- What is documented of them.
  pub record NsMutableSetDocumented (ops : NsMutableSetAdditions) : Type 0 where
    -- "Removes all objects that match aRegex from the receiver."
    pub remove-member :
        (s : Set) (x : A) → member (ops.remove_objects s) x ≡ member s x && not (is_matched x)
    -- "Adds the objects matching aRegex contained in otherArray to the receiver's content."
    pub add_array-member :
        (s : Set) (xs : List A)
        → (t : Set) × (ops.add_from_array s (some xs) ≡ ok t)
          × ((x : A) → member t x ≡ member s x || (has same x xs && is_matched x))
    -- "Adds the objects matching aRegex contained in otherSet to the receiver's content."
    pub add_set-member :
        (s other : Set)
        → (t : Set) × (ops.add_from_set false s (some other) ≡ ok t)
          × ((x : A) → member t x ≡ member s x || (member other x && is_matched x))
    -- The receiver itself as the other set changes nothing.
    pub add_self-member : (s : Set) → ops.add_from_set true s (some s) ≡ ok s

  -- The methods of Source/NSSet.m
  unfoldable pub set_methods : NsSetAdditions
  set_methods = record {
    any_object = any_object_matching_regex F is_matched;
    contains_object = contains_object_matching_regex F is_matched;
    count_of_objects = count_of_objects_matching_regex F is_matched;
    set_by_matching = set_by_matching_objects F is_matched;
  }

  unfoldable pub mutable_set_methods : NsMutableSetAdditions
  mutable_set_methods = record {
    remove_objects = remove_objects_matching_regex F is_matched;
    add_from_array = add_objects_from_array F is_matched;
    add_from_set = add_objects_from_set F is_matched;
  }

  -- Objects that are the same are matched alike.
  abbrev pub Respects : Type 0
  Respects = (x y : A) → same x y ≡ true → is_matched x ≡ is_matched y

  pub has-select :
      (x : A) (xs : List A)
      → Respects
      → has same x (select is_matched xs) ≡ has same x xs && is_matched x
  unfolding has
  has-select x [] alike = refl
  has-select x (y ∷ ys) alike =
      let rest = has-select x ys alike in
      elim (Bool-cases (same x y)) [
        | inl equal ↦ elim (Bool-cases (is_matched y)) [
          | inl hit ↦ rw (hit, equal, alike x y equal ∙ hit) refl
          | inr miss ↦ rw (miss, rest, alike x y equal ∙ miss) (ground arith)
        ]
        | inr other ↦ elim (Bool-cases (is_matched y)) [
          | inl hit ↦ rw (hit, other, rest) refl
          | inr miss ↦ rw (miss, other, rest) refl
        ]
      ]

  pub member-add_each :
      (s : Set) (xs : List A) (x : A)
      → member (add_each F is_matched s xs) x ≡ member s x || has same x xs
  unfolding add_each has
  member-add_each s [] x = ground arith
  member-add_each s (y ∷ ys) x =
      ground (arith, member-add_each (add_object s y) ys x, F.member-add s x y)

  pub member-remove_each :
      (s : Set) (xs : List A) (x : A)
      → member (remove_each F is_matched s xs) x ≡ member s x && not (has same x xs)
  unfolding remove_each has
  member-remove_each s [] x = ground arith
  member-remove_each s (y ∷ ys) x =
      ground (arith, member-remove_each (remove_object s y) ys x, F.member-remove s x y)
