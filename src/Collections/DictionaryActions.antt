-- ===== src/Collections/DictionaryActions.antt =====
-- `RKDoDictionaryAction` of Source/NSDictionary.m and the methods that call it. The dictionaries of
-- Foundation are a parameter. The memory that `alloca` gives is taken to suffice.
use regexkit.Base.{
  ◌≡◌, Bool, true, false, ◌&&◌, ◌||◌, Option, some, none, List, [], ◌∷◌, map, if◌then◌else◌,
  Outcome, ok, raise, invalid_argument,
}
use regexkit.Collections.Matching.{select}

-- The first entry with a key, and whether no key stands twice.
abbrev pub find_entry : {K V : Type 0} → (K → K → Bool) → List (K × V) → K → Option (K × V)
find_entry same [] j = none
find_entry same ((k, v) ∷ es) j =
    let later = find_entry same es j in if same j k then some (k, v) else later

abbrev pub is_absent : {K V : Type 0} → Option (K × V) → Bool
is_absent none = true
is_absent (some e) = false

abbrev pub are_distinct : {K V : Type 0} → (K → K → Bool) → List (K × V) → Bool
are_distinct same [] = true
are_distinct same ((k, v) ∷ es) = is_absent (find_entry same es k) && are_distinct same es

abbrev pub object_of_entry : {K V : Type 0} → Option (K × V) → Option V
object_of_entry none = none
object_of_entry (some (k, v)) = some v

-- What the code asks of `NSDictionary` and `NSMutableDictionary`, with what their documentation
-- says. `entries` are the keys with their objects, in the order that the dictionary chooses.
pub record DictionaryOf (K V : Type 0) : Type 1 where
  pub Dictionary : Type 0
  pub same : K → K → Bool
  pub entries : Dictionary → List (K × V)
  pub object_for_key : Dictionary → K → Option V
  pub init_with_entries : List (K × V) → Dictionary
  pub set_object : Dictionary → V → K → Dictionary
  pub remove_object : Dictionary → K → Dictionary
  pub same_sym : (j k : K) → same j k ≡ true → same k j ≡ true
  pub same_trans : (i j k : K) → same i j ≡ true → same j k ≡ true → same i k ≡ true
  -- The entries of a dictionary are what it has under its keys, and no key stands twice in them.
  pub object_for_key-entries :
      (d : Dictionary) (j : K)
      → object_for_key d j ≡ object_of_entry (find_entry same (entries d) j)
  pub entries-distinct : (d : Dictionary) → are_distinct same (entries d) ≡ true
  -- A dictionary of entries with distinct keys has these.
  pub object_for_key-init :
      (es : List (K × V)) (j : K)
      → are_distinct same es ≡ true
      → object_for_key (init_with_entries es) j ≡ object_of_entry (find_entry same es j)
  pub object_for_key-set :
      (d : Dictionary) (v : V) (k j : K)
      → object_for_key (set_object d v k) j ≡ (if same j k then some v else object_for_key d j)
  pub object_for_key-remove :
      (d : Dictionary) (k j : K)
      → object_for_key (remove_object d k) j ≡ (if same j k then none else object_for_key d j)

pub data DictionaryAction : Type 0 where
  yes_on_any_key_match yes_on_any_object_match : DictionaryAction
  array_of_matched_keys array_of_matched_objects : DictionaryAction
  array_of_objects_for_matched_keys array_of_keys_for_matched_objects : DictionaryAction
  dictionary_with_matched_keys dictionary_with_matched_objects : DictionaryAction
  add_matches remove_matches : DictionaryAction

module _ {K V : Type 0} (F : DictionaryOf K V) (key_is_matched : K → Bool)
    (object_is_matched : V → Bool) where
  open F use {Dictionary, entries, init_with_entries, set_object, remove_object}

  -- The regexes that a call gives: that for the keys, that for the objects.
  pub data Regexes : Type 0 where
    for_keys for_objects for_either for_both : Regexes

  -- `didMatch`, for `matchKeyAndObjectRegex` in the last two cases.
  unfoldable pub did_match : Regexes → K × V → Bool
  did_match for_keys (k, v) = key_is_matched k
  did_match for_objects (k, v) = object_is_matched v
  did_match for_either (k, v) = key_is_matched k || object_is_matched v
  did_match for_both (k, v) = key_is_matched k && object_is_matched v

  -- What is returned; `itself` is the receiver.
  pub data DictionaryObject : Type 0 where
    no_object itself : DictionaryObject
    keys : List K → DictionaryObject
    values : List V → DictionaryObject
    dictionary : Dictionary → DictionaryObject

  unfoldable pub set_each : Dictionary → List (K × V) → Dictionary
  set_each d [] = d
  set_each d ((k, v) ∷ es) = set_each (set_object d v k) es

  unfoldable pub remove_each : Dictionary → List (K × V) → Dictionary
  remove_each d [] = d
  remove_each d ((k, v) ∷ es) = remove_each (remove_object d k) es

  -- The loop that ends at the first match.
  unfoldable pub any_match : Regexes → List (K × V) → DictionaryObject
  any_match r [] = no_object
  any_match r (e ∷ es) = let later = any_match r es in if did_match r e then itself else later

  abbrev pub key_of : K × V → K
  key_of (k, v) = k

  abbrev pub object_of : K × V → V
  object_of (k, v) = v

  -- The loop over the entries of the other dictionary, and the switch: the receiver afterwards, and
  -- the returned object.
  unfoldable pub perform :
      DictionaryAction → Regexes → Dictionary → Dictionary → Dictionary × DictionaryObject
  perform yes_on_any_key_match r self against = (self, any_match r (entries against))
  perform yes_on_any_object_match r self against = (self, any_match r (entries against))
  perform array_of_matched_keys r self against =
      (self, keys (map key_of (select (did_match r) (entries against))))
  perform array_of_keys_for_matched_objects r self against =
      (self, keys (map key_of (select (did_match r) (entries against))))
  perform array_of_matched_objects r self against =
      (self, values (map object_of (select (did_match r) (entries against))))
  perform array_of_objects_for_matched_keys r self against =
      (self, values (map object_of (select (did_match r) (entries against))))
  perform dictionary_with_matched_keys r self against =
      (self, dictionary (init_with_entries (select (did_match r) (entries against))))
  perform dictionary_with_matched_objects r self against =
      (self, dictionary (init_with_entries (select (did_match r) (entries against))))
  perform add_matches r self against =
      (set_each self (select (did_match r) (entries against)), no_object)
  perform remove_matches r self against =
      (remove_each self (select (did_match r) (entries against)), no_object)

  abbrev is_add : DictionaryAction → Bool
  is_add add_matches = true
  is_add _ = false

  -- `is_self` is `self == matchAgainstDictionary`.
  unfoldable pub do_dictionary_action :
      DictionaryAction → Regexes → Bool → Dictionary → Dictionary → Dictionary × DictionaryObject
  do_dictionary_action action r is_self self against =
      if is_self && is_add action then (self, no_object) else perform action r self against

  -- The methods of an immutable dictionary, by the action and the regex that they pass on.
  abbrev ask : DictionaryAction → Regexes → Dictionary → DictionaryObject
  ask action r self = (do_dictionary_action action r true self self).1

  unfoldable pub dictionary_by_matching_keys : Dictionary → DictionaryObject
  dictionary_by_matching_keys = ask dictionary_with_matched_keys for_keys

  unfoldable pub dictionary_by_matching_objects : Dictionary → DictionaryObject
  dictionary_by_matching_objects = ask dictionary_with_matched_objects for_objects

  abbrev pub is_object : DictionaryObject → Bool
  is_object no_object = false
  is_object _ = true

  unfoldable pub contains_key_matching_regex : Dictionary → Bool
  contains_key_matching_regex self = is_object (ask yes_on_any_key_match for_keys self)

  unfoldable pub contains_object_matching_regex : Dictionary → Bool
  contains_object_matching_regex self = is_object (ask yes_on_any_object_match for_objects self)

  unfoldable pub keys_matching_regex : Dictionary → DictionaryObject
  keys_matching_regex = ask array_of_matched_keys for_keys

  unfoldable pub keys_for_objects_matching_regex : Dictionary → DictionaryObject
  keys_for_objects_matching_regex = ask array_of_keys_for_matched_objects for_objects

  unfoldable pub objects_for_keys_matching_regex : Dictionary → DictionaryObject
  objects_for_keys_matching_regex = ask array_of_objects_for_matched_keys for_keys

  unfoldable pub objects_matching_regex : Dictionary → DictionaryObject
  objects_matching_regex = ask array_of_matched_objects for_objects

  -- Those of a mutable one. `none` is a `NULL` dictionary; `is_self` says that the two are one.
  unfoldable pub add_entries_with :
      Regexes → Bool → Dictionary → Option Dictionary → Outcome Dictionary
  add_entries_with r is_self self none = raise invalid_argument
  add_entries_with r is_self self (some other) =
      ok (do_dictionary_action add_matches r is_self self other).0

  unfoldable pub remove_with : Regexes → Dictionary → Dictionary
  remove_with r self = (do_dictionary_action remove_matches r true self self).0
