-- ===== src/Collections/ArrayInterface.antt =====
-- Source/Headers/RegexKit/NSArray.h: the additions to `NSArray` and `NSMutableArray`, with what
-- their documentation says of each method. A method and its variant with `inRange:` are one
-- operation, whose range is `none` for the first. The documentation is taken to speak of ranges
-- within the array.
use regexkit.Base.{
  ℕ, ◌+◌, ◌≡◌, ◌<◌, refl, ap, ◌==◌, Bool, not, Option, some, List, ◌++◌, length, take, drop,
  Outcome, ok, ◌>>=◌,
}
use regexkit.Foundation.{NsRange, not_found}
use regexkit.Collections.Matching.{select, reject, positions}
use regexkit.Collections.ArrayActions.{
  range_or_all, array_by_matching_objects, contains_object_matching_regex,
  count_of_objects_matching_regex, index_of_object_matching_regex,
  index_set_of_objects_matching_regex, add_objects_from_array, remove_objects_matching_regex,
  array_of_matching_objects, count_of_matching_objects, index_set_of_matching_objects, array_of,
  indexes_of, perform,
}
use regexkit.Collections.ArrayActions.Scan.{Fits, part, do_array_action-perform}
use regexkit.Collections.ArrayActions.Search.{
  FirstMatch, index_of_object_matching_regex-FirstMatch, contains_object_matching_regex-select,
}
use regexkit.Collections.ArrayActions.Removal.{
  remove_objects_matching_regex-reject, add_objects_from_array-select,
}

-- The objects that a method looks at.
abbrev pub within : {A : Type 0} → List A → Option NsRange → List A
within xs range = part xs (range_or_all range xs)

module _ {A : Type 0} (is_matched : A → Bool) where
  -- `NSArray (RegexKitAdditions)`. The last two answer `n`, an index, and the indexes.
  pub record NsArrayAdditions : Type 0 where
    pub array_by_matching : List A → Option NsRange → Outcome (List A)
    pub contains_object : List A → Option NsRange → Outcome Bool
    pub count_of_objects : List A → Option NsRange → Outcome ℕ
    pub index_of_object : List A → Option NsRange → Outcome ℕ
    pub index_set_of_objects : List A → Option NsRange → Outcome (List ℕ)

  -- What is documented of them, for an array and a range.
  pub record NsArrayDocumented (ops : NsArrayAdditions) (xs : List A) (range : Option NsRange)
      : Type 0 where
    -- "a new array that contains all the objects in the receiver matching aRegex"
    pub array-select : ops.array_by_matching xs range ≡ ok (select is_matched (within xs range))
    -- "YES if an object that is matched by aRegex is present in the receiver, otherwise NO"
    pub contains-select :
        ops.contains_object xs range ≡ ok (not (length (select is_matched (within xs range)) == 0))
    -- "the number of objects matching aRegex"
    pub count-select :
        ops.count_of_objects xs range ≡ ok (length (select is_matched (within xs range)))
    -- "the lowest index", or NSNotFound "if none of the objects ... are matched"
    pub index-FirstMatch :
        (n : ℕ) × (ops.index_of_object xs range ≡ ok n)
        × FirstMatch is_matched (range_or_all range xs).location (within xs range) n
    -- "a NSIndexSet containing the matching indexes"
    pub index_set-positions :
        ops.index_set_of_objects xs range
        ≡ ok (positions is_matched (range_or_all range xs).location (within xs range))

  -- `NSMutableArray (RegexKitAdditions)`: what the receiver is afterwards.
  pub record NsMutableArrayAdditions : Type 0 where
    pub add_objects : List A → Option (List A) → Outcome (List A)
    pub remove_objects : List A → Option NsRange → Outcome (List A)

  -- What is documented of them, for an array, another one and a range.
  pub record NsMutableArrayDocumented (ops : NsMutableArrayAdditions) (xs other : List A)
      (range : Option NsRange) : Type 0 where
    -- "Adds the objects matching aRegex contained in otherArray to the end"
    pub add-select : ops.add_objects xs (some other) ≡ ok (xs ++ select is_matched other)
    -- "Removes all objects matching aRegex within range"
    pub remove-reject :
        ops.remove_objects xs range
        ≡ ok (
            take (range_or_all range xs).location xs
            ++ (reject is_matched (within xs range)
                ++ drop ((range_or_all range xs).location + (range_or_all range xs).length) xs))

  -- The methods of Source/NSArray.m
  unfoldable pub array_methods : NsArrayAdditions
  array_methods = record {
    array_by_matching = array_by_matching_objects is_matched;
    contains_object = contains_object_matching_regex is_matched;
    count_of_objects = count_of_objects_matching_regex is_matched;
    index_of_object = index_of_object_matching_regex is_matched;
    index_set_of_objects = index_set_of_objects_matching_regex is_matched;
  }

  unfoldable pub mutable_array_methods : NsMutableArrayAdditions
  mutable_array_methods = record {
    add_objects = add_objects_from_array is_matched;
    remove_objects = remove_objects_matching_regex is_matched;
  }

  -- For a range within the array, and another array whose length is a number of the machine, the
  -- additions to the arrays do what the header documents of them.
  pub array_methods-documented :
      (xs other : List A) (range : Option NsRange)
      → Fits (range_or_all range xs) xs
      → length other < not_found
      → NsArrayDocumented array_methods xs range
        × NsMutableArrayDocumented mutable_array_methods xs other range
  unfolding array_methods mutable_array_methods array_by_matching_objects
      count_of_objects_matching_regex index_set_of_objects_matching_regex perform
  array_methods-documented xs other range fits small = (
    record {
      array-select =
          ap (λ o. o >>= λ x. ok (array_of is_matched x.object))
            (do_array_action-perform is_matched array_of_matching_objects xs xs range refl fits);
      contains-select = contains_object_matching_regex-select is_matched xs range fits;
      count-select =
          ap (λ o. o >>= λ x. ok x.number)
            (do_array_action-perform is_matched count_of_matching_objects xs xs range refl fits);
      index-FirstMatch = index_of_object_matching_regex-FirstMatch is_matched xs range fits;
      index_set-positions =
          ap (λ o. o >>= λ x. ok (indexes_of is_matched x.object))
            (do_array_action-perform is_matched index_set_of_matching_objects xs xs range refl
              fits);
    },
    record {
      add-select = add_objects_from_array-select is_matched xs other small;
      remove-reject = remove_objects_matching_regex-reject is_matched xs range fits;
    },
  )
