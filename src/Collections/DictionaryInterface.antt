-- ===== src/Collections/DictionaryInterface.antt =====
-- Source/Headers/RegexKit/NSDictionary.h: the additions to `NSDictionary` and
-- `NSMutableDictionary`, with what their documentation says of each method.
use regexkit.Base.{
  ◌≡◌, ◌==◌, Bool, false, not, ◌||◌, Option, some, none, List, [], ◌∷◌, map, if◌then◌else◌, length,
  Outcome, ok,
}
use regexkit.Collections.Matching.{select}
use regexkit.Collections.DictionaryEntries.{filtered, filter_object}
use regexkit.Collections.DictionaryActions.{
  DictionaryOf, find_entry, object_of_entry, for_keys, for_objects, DictionaryObject, keys, values,
  dictionary, dictionary_by_matching_keys, dictionary_by_matching_objects,
  contains_key_matching_regex, contains_object_matching_regex, keys_matching_regex,
  keys_for_objects_matching_regex, objects_for_keys_matching_regex, objects_matching_regex,
  add_entries_with, remove_with,
}

module _ {K V : Type 0} (F : DictionaryOf K V) (key_is_matched : K → Bool)
    (object_is_matched : V → Bool) where
  open F use {Dictionary, same, entries, object_for_key, set_object, remove_object}

  abbrev Object : Type 0
  Object = DictionaryObject F key_is_matched object_is_matched

  -- The entries whose key is matched, and those whose object is.
  abbrev pub by_key : Dictionary → List (K × V)
  by_key d = select (λ (k, v). key_is_matched k) (entries d)

  abbrev pub by_object : Dictionary → List (K × V)
  by_object d = select (λ (k, v). object_is_matched v) (entries d)

  -- The object of the last of the entries with a key, or else `before`.
  abbrev pub last_for : List (K × V) → K → Option V → Option V
  last_for [] j before = before
  last_for ((k, v) ∷ es) j before = last_for es j (if same j k then some v else before)

  abbrev pub has_key : K → List (K × V) → Bool
  has_key j [] = false
  has_key j ((k, v) ∷ es) = same j k || has_key j es

  -- `NSDictionary (RegexKitAdditions)`
  pub record NsDictionaryAdditions : Type 0 where
    pub by_matching_keys : Dictionary → Object
    pub by_matching_objects : Dictionary → Object
    pub contains_key : Dictionary → Bool
    pub contains_object : Dictionary → Bool
    pub keys_matching : Dictionary → Object
    pub keys_for_objects : Dictionary → Object
    pub objects_for_keys : Dictionary → Object
    pub objects_matching : Dictionary → Object

  -- What is documented of them.
  pub record NsDictionaryDocumented (ops : NsDictionaryAdditions) : Type 0 where
    -- "a new dictionary that contains the entries in the receiver whose keys are matched": under a key
    -- it has the object of the receiver if the key of that entry is matched.
    pub keys-dictionary :
        (d : Dictionary)
        → (e : Dictionary) × (ops.by_matching_keys d ≡ dictionary e)
          × ((j : K)
              → object_for_key e j
                ≡ object_of_entry
                    (filtered (λ (k, v). key_is_matched k) (find_entry same (entries d) j)))
    -- "... whose objects are matched"
    pub objects-dictionary :
        (d : Dictionary)
        → (e : Dictionary) × (ops.by_matching_objects d ≡ dictionary e)
          × ((j : K) → object_for_key e j ≡ filter_object object_is_matched (object_for_key d j))
    -- "whether any of the receivers keys are matched by aRegex"
    pub contains-by_key : (d : Dictionary) → ops.contains_key d ≡ not (length (by_key d) == 0)
    pub contains-by_object :
        (d : Dictionary) → ops.contains_object d ≡ not (length (by_object d) == 0)
    -- "an array of the receiver's keys that are matched by aRegex"
    pub keys-by_key : (d : Dictionary) → ops.keys_matching d ≡ keys (map (λ (k, v). k) (by_key d))
    -- "an array containing the keys in the receiver whose object is matched by aRegex"
    pub keys-by_object :
        (d : Dictionary) → ops.keys_for_objects d ≡ keys (map (λ (k, v). k) (by_object d))
    -- "an array containing the objects in the receiver whose key is matched by aRegex"
    pub objects-by_key :
        (d : Dictionary) → ops.objects_for_keys d ≡ values (map (λ (k, v). v) (by_key d))
    -- "an array containing the objects in the receiver that are matched by aRegex"
    pub objects-by_object :
        (d : Dictionary) → ops.objects_matching d ≡ values (map (λ (k, v). v) (by_object d))

  -- `NSMutableDictionary (RegexKitAdditions)`: what the receiver is afterwards.
  pub record NsMutableDictionaryAdditions : Type 0 where
    pub add_by_keys : Bool → Dictionary → Option Dictionary → Outcome Dictionary
    pub add_by_objects : Bool → Dictionary → Option Dictionary → Outcome Dictionary
    pub remove_by_objects : Dictionary → Dictionary
    pub remove_by_keys : Dictionary → Dictionary

  -- What is documented of them.
  pub record NsMutableDictionaryDocumented (ops : NsMutableDictionaryAdditions) : Type 0 where
    -- "Adds to the receiver the entries from otherDictionary whose keys are matched by aRegex."
    pub add-by_key :
        (d other : Dictionary)
        → (e : Dictionary) × (ops.add_by_keys false d (some other) ≡ ok e)
          × ((j : K) → object_for_key e j ≡ last_for (by_key other) j (object_for_key d j))
    -- "... whose objects are matched by aRegex."
    pub add-by_object :
        (d other : Dictionary)
        → (e : Dictionary) × (ops.add_by_objects false d (some other) ≡ ok e)
          × ((j : K) → object_for_key e j ≡ last_for (by_object other) j (object_for_key d j))
    -- "Removes from the receiver the entries whose objects are matched by aRegex."
    pub remove-by_object :
        (d : Dictionary) (j : K)
        → object_for_key (ops.remove_by_objects d) j
          ≡ (if has_key j (by_object d) then none else object_for_key d j)
    -- "... whose keys are matched by aRegex."
    pub remove-by_key :
        (d : Dictionary) (j : K)
        → object_for_key (ops.remove_by_keys d) j
          ≡ (if has_key j (by_key d) then none else object_for_key d j)

  -- The methods of Source/NSDictionary.m
  unfoldable pub dictionary_methods : NsDictionaryAdditions
  dictionary_methods = record {
    by_matching_keys = dictionary_by_matching_keys F key_is_matched object_is_matched;
    by_matching_objects = dictionary_by_matching_objects F key_is_matched object_is_matched;
    contains_key = contains_key_matching_regex F key_is_matched object_is_matched;
    contains_object = contains_object_matching_regex F key_is_matched object_is_matched;
    keys_matching = keys_matching_regex F key_is_matched object_is_matched;
    keys_for_objects = keys_for_objects_matching_regex F key_is_matched object_is_matched;
    objects_for_keys = objects_for_keys_matching_regex F key_is_matched object_is_matched;
    objects_matching = objects_matching_regex F key_is_matched object_is_matched;
  }

  unfoldable pub mutable_dictionary_methods : NsMutableDictionaryAdditions
  mutable_dictionary_methods = record {
    add_by_keys = add_entries_with F key_is_matched object_is_matched for_keys;
    add_by_objects = add_entries_with F key_is_matched object_is_matched for_objects;
    remove_by_objects = remove_with F key_is_matched object_is_matched for_objects;
    remove_by_keys = remove_with F key_is_matched object_is_matched for_keys;
  }
