-- ===== src/Collections/DictionaryDocumented.antt =====
-- The methods of Source/NSDictionary.m do what Source/Headers/RegexKit/NSDictionary.h documents.
use regexkit.Base.{
  ◌≡◌, refl, ap, ◌∙◌, arith, inl, inr, ◌==◌, Bool, not, Bool-cases, none, List, [], ◌∷◌,
  if◌then◌else◌, length,
}
use regexkit.Collections.Matching.{select}
use regexkit.Collections.DictionaryActions.{
  DictionaryOf, Regexes, for_keys, for_objects, did_match, set_each, remove_each, any_match,
  perform, do_dictionary_action, is_object, dictionary_by_matching_keys,
  dictionary_by_matching_objects, contains_key_matching_regex, contains_object_matching_regex,
  keys_matching_regex, keys_for_objects_matching_regex, objects_for_keys_matching_regex,
  objects_matching_regex, add_entries_with, remove_with,
}
use regexkit.Collections.DictionaryEntries.{object_for_key-select, object_for_key-select_object}
use regexkit.Collections.DictionaryInterface.{
  NsDictionaryDocumented, NsMutableDictionaryDocumented, dictionary_methods,
  mutable_dictionary_methods, last_for, has_key,
}

module _ {K V : Type 0} (F : DictionaryOf K V) (key_is_matched : K → Bool)
    (object_is_matched : V → Bool) where
  open F use {Dictionary, same, entries, object_for_key, set_object, remove_object}

  object_for_key-set_each :
      (d : Dictionary) (es : List (K × V)) (j : K)
      → object_for_key (set_each F key_is_matched object_is_matched d es) j
        ≡ last_for F key_is_matched object_is_matched es j (object_for_key d j)
  unfolding set_each
  object_for_key-set_each d [] j = refl
  object_for_key-set_each d ((k, v) ∷ es) j =
      object_for_key-set_each (set_object d v k) es j
      ∙ ap (last_for F key_is_matched object_is_matched es j) (F.object_for_key-set d v k j)

  object_for_key-remove_each :
      (d : Dictionary) (es : List (K × V)) (j : K)
      → object_for_key (remove_each F key_is_matched object_is_matched d es) j
        ≡ (if has_key F key_is_matched object_is_matched j es then none else object_for_key d j)
  unfolding remove_each
  object_for_key-remove_each d [] j = refl
  object_for_key-remove_each d ((k, v) ∷ es) j =
      object_for_key-remove_each (remove_object d k) es j
      ∙ ap (λ o. if has_key F key_is_matched object_is_matched j es then none else o)
          (F.object_for_key-remove d k j)
      ∙ ground arith

  is_object-any_match :
      (r : Regexes F key_is_matched object_is_matched) (es : List (K × V))
      → is_object F key_is_matched object_is_matched
          (any_match F key_is_matched object_is_matched r es)
        ≡ not (length (select (did_match F key_is_matched object_is_matched r) es) == 0)
  unfolding any_match
  is_object-any_match r [] = refl
  is_object-any_match r (e ∷ es) =
      elim (Bool-cases (did_match F key_is_matched object_is_matched r e)) [
        | inl hit ↦ rw hit (ground arith)
        | inr miss ↦ rw miss (is_object-any_match r es)
      ]

  -- The methods of the additions to the dictionaries do what the header documents of them, over
  -- dictionaries that keep to the documentation of Foundation, but for `containsKeyMatchingRegex:`:
  -- that answers whether any key is matched, where the header's result is a dictionary. A dictionary
  -- that they return has, under each key, the entry of the receiver if that is matched and nothing else.
  pub dictionary_methods-documented :
      NsDictionaryDocumented F key_is_matched object_is_matched
        (dictionary_methods F key_is_matched object_is_matched)
      × NsMutableDictionaryDocumented F key_is_matched object_is_matched
          (mutable_dictionary_methods F key_is_matched object_is_matched)
  unfolding dictionary_methods mutable_dictionary_methods dictionary_by_matching_keys
      dictionary_by_matching_objects contains_key_matching_regex contains_object_matching_regex
      keys_matching_regex keys_for_objects_matching_regex objects_for_keys_matching_regex
      objects_matching_regex add_entries_with remove_with do_dictionary_action perform did_match
  dictionary_methods-documented = (
    record {
      keys-dictionary =
          λ d. (_, refl, object_for_key-select F object_is_matched (λ (k, v). key_is_matched k) d);
      objects-dictionary = λ d. (_, refl, object_for_key-select_object F object_is_matched d);
      contains-by_key = λ d. is_object-any_match for_keys (entries d);
      contains-by_object = λ d. is_object-any_match for_objects (entries d);
      keys-by_key = λ d. refl;
      keys-by_object = λ d. refl;
      objects-by_key = λ d. refl;
      objects-by_object = λ d. refl;
    },
    record {
      add-by_key = λ d other. (_, refl, λ j. object_for_key-set_each d _ j);
      add-by_object = λ d other. (_, refl, λ j. object_for_key-set_each d _ j);
      remove-by_object = λ d j. object_for_key-remove_each d _ j;
      remove-by_key = λ d j. object_for_key-remove_each d _ j;
    },
  )
