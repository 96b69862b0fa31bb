-- ===== src/Collections/SetActions.antt =====
-- `RKDoSetAction` of Source/NSSet.m and the methods that call it. The sets of Foundation are a
-- parameter. The memory that `alloca` gives is taken to suffice.
use regexkit.Base.{
  ℕ, ◌≡◌, Bool, true, false, not, ◌&&◌, ◌||◌, Option, some, none, List, [], ◌∷◌, if◌then◌else◌,
  length, Outcome, ok, raise, invalid_argument,
}
use regexkit.Collections.Matching.{select}

-- Some object of the list is the same as `x`.
unfoldable pub has : {A : Type 0} → (A → A → Bool) → A → List A → Bool
has same x [] = false
has same x (y ∷ ys) = same x y || has same x ys

-- What the code asks of `NSSet` and `NSMutableSet`, with what their documentation says. `objects`
-- are those of the set, in the order that it chooses, and `same` is `isEqual:`.
pub record SetOf (A : Type 0) : Type 1 where
  pub Set : Type 0
  pub same : A → A → Bool
  pub objects : Set → List A
  pub member : Set → A → Bool
  pub init_with_objects : List A → Set
  pub add_object : Set → A → Set
  pub remove_object : Set → A → Set
  pub same-refl : (x : A) → same x x ≡ true
  pub member-objects : (s : Set) (x : A) → member s x ≡ has same x (objects s)
  pub member-init : (xs : List A) (x : A) → member (init_with_objects xs) x ≡ has same x xs
  pub member-add : (s : Set) (x y : A) → member (add_object s y) x ≡ same x y || member s x
  pub member-remove :
      (s : Set) (x y : A) → member (remove_object s y) x ≡ not (same x y) && member s x

pub data SetAction : Type 0 where
  object_of_first_match set_of_matching_objects count_of_matching_objects : SetAction
  add_matches remove_matches : SetAction

module _ {A : Type 0} (F : SetOf A) (is_matched : A → Bool) where
  open F use {Set, objects, member, init_with_objects, add_object, remove_object}

  -- What is returned: no object, one of the set's, or a set.
  pub data SetObject : Type 0 where
    no_object : SetObject
    one : A → SetObject
    set : Set → SetObject

  pub record SetResult : Type 0 where
    pub receiver : Set
    pub object : SetObject
    pub number : ℕ

  -- The loop that ends at the first match.
  unfoldable pub first_match : List A → SetObject
  first_match [] = no_object
  first_match (x ∷ xs) = let later = first_match xs in if is_matched x then one x else later

  unfoldable pub add_each : Set → List A → Set
  add_each s [] = s
  add_each s (x ∷ xs) = add_each (add_object s x) xs

  unfoldable pub remove_each : Set → List A → Set
  remove_each s [] = s
  remove_each s (x ∷ xs) = remove_each (remove_object s x) xs

  abbrev result : Set → SetObject → ℕ → SetResult
  result s o n = record { receiver = s; object = o; number = n }

  -- The loop over the objects of the other set, and the switch.
  unfoldable pub perform : SetAction → Set → Set → SetResult
  perform object_of_first_match self against = result self (first_match (objects against)) 0
  perform set_of_matching_objects self against =
      result self (set (init_with_objects (select is_matched (objects against)))) 0
  perform count_of_matching_objects self against =
      result self no_object (length (select is_matched (objects against)))
  perform add_matches self against =
      result (add_each self (select is_matched (objects against))) no_object 0
  perform remove_matches self against =
      result (remove_each self (select is_matched (objects against))) no_object 0

  abbrev is_add : SetAction → Bool
  is_add object_of_first_match = false
  is_add set_of_matching_objects = false
  is_add count_of_matching_objects = false
  is_add add_matches = true
  is_add remove_matches = false

  -- `is_self` is `self == matchAgainstSet`.
  unfoldable pub do_set_action : SetAction → Bool → Set → Set → SetResult
  do_set_action action is_self self against =
      if is_self && is_add action then result self no_object 0 else perform action self against

  -- The methods.
  unfoldable pub any_object_matching_regex : Set → SetObject
  any_object_matching_regex self = (do_set_action object_of_first_match true self self).object

  abbrev pub is_object : SetObject → Bool
  is_object no_object = false
  is_object (one x) = true
  is_object (set s) = true

  unfoldable pub contains_object_matching_regex : Set → Bool
  contains_object_matching_regex self =
      is_object (do_set_action object_of_first_match true self self).object

  unfoldable pub count_of_objects_matching_regex : Set → ℕ
  count_of_objects_matching_regex self =
      (do_set_action count_of_matching_objects true self self).number

  unfoldable pub set_by_matching_objects : Set → SetObject
  set_by_matching_objects self = (do_set_action set_of_matching_objects true self self).object

  unfoldable pub remove_objects_matching_regex : Set → Set
  remove_objects_matching_regex self = (do_set_action remove_matches true self self).receiver

  -- `none` is a `NULL` set; `is_self` says that the two sets are one object.
  unfoldable pub add_objects_from_set : Bool → Set → Option Set → Outcome Set
  add_objects_from_set is_self self none = raise invalid_argument
  add_objects_from_set is_self self (some other) =
      ok (do_set_action add_matches is_self self other).receiver

  unfoldable pub add_objects_from_array : Set → Option (List A) → Outcome Set
  add_objects_from_array self none = raise invalid_argument
  add_objects_from_array self (some other) =
      ok (do_set_action add_matches false self (init_with_objects other)).receiver
