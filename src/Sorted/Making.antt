-- ===== src/Sorted/Making.antt =====
-- Source/RKSortedRegexCollection.m: `initWithCollection:library:options:error:` and
-- `sortedRegexCollectionForCollection:library:options:error:`.
use regexkit.Base.{
  ℕ, ◌+◌, ◌==◌, Bool, false, not, if◌then◌else◌, Option, some, none, List, [], ◌∷◌, length, Outcome,
  ok, raise, ◌>>=◌, invalid_argument, malloc_exception, ◌⊎◌, inl, inr,
}
use regexkit.Additions.{Regexes, RegexArgument, from_string_or_regex_with_error}
use regexkit.Sorted.{
  unknown_collection, array_collection, set_collection, dictionary_collection, CollectionType,
  Collection,
}

-- The argument `library`: that of pcre, or the name of an engine that RegexKit does not have.
pub data Library : Type 0 where
  pcre_library unknown_library : Library

-- The argument `collection`: `NULL`, the objects of an array or a set, or an object of another class.
pub data CollectionArgument (R : Type 0) : Type 0 where
  no_collection other_class : CollectionArgument R
  array_of set_of : List (RegexArgument R) → CollectionArgument R

-- What the initialiser hands out as an error: that it has no lock, or that an object does not compile,
-- with its index in an array.
pub data CollectionError : Type 0 where
  no_lock : CollectionError
  not_compiled : Option ℕ → CollectionError

-- A collection with its compiled regexes.
pub record Made (R : Type 0) : Type 0 where
  pub regexes : List R
  pub state : Collection

-- What the calls meet: what is found in the cache of collections by either lookup, and which of the
-- memory and the lock they get.
pub record Means (R : Type 0) : Type 0 where
  pub cached : Option (Made R)
  pub cached_in_init : Option (Made R)
  pub lock_made : Bool
  pub missed_cache_made : Bool
  pub stack : Bool
  pub elements_made : Bool
  pub sorted_made : Bool

-- The indexes from one on.
abbrev pub indexes : {R : Type 0} → ℕ → List R → List ℕ
indexes i [] = []
indexes i (r ∷ rs) = i ∷ indexes (i + 1) rs

-- What the loop of the initialiser leaves.
abbrev pub made : {R : Type 0} → CollectionType → List R → Made R
made kind regexes = record {
  regexes = regexes;
  state = record {
    collection_type = kind;
    sorted = indexes 0 regexes;
    hit_count = λ i. 0;
    resort_required = false;
    missed_object_hash_cache = λ b. 0;
    cache_hits = 0;
    cache_misses = 0;
  };
}

module _ (W : Regexes) where
  open W use {Regex}

  -- A string is compiled by the library that is named; the cache of regexes does not look at it.
  unfoldable pub regex_for : Library → ℕ → RegexArgument Regex → Outcome (Option Regex)
  regex_for pcre_library option a = from_string_or_regex_with_error W a option
  regex_for unknown_library option a =
      from_string_or_regex_with_error (record W { compile = λ s o. none }) a option

  abbrev with_regex : Regex → ℕ ⊎ List Regex → ℕ ⊎ List Regex
  with_regex r (inl i) = inl i
  with_regex r (inr rs) = inr (r ∷ rs)

  -- The loop from an index on; `inl` is the index of the first object that does not compile.
  unfoldable pub compile_from :
      Library → ℕ → ℕ → List (RegexArgument Regex) → Outcome (ℕ ⊎ List Regex)
  compile_from library option i [] = ok (inr [])
  compile_from library option i (a ∷ rest) = regex_for library option a >>= λ answer. elim answer [
    | none ↦ ok (inl i)
    | some r ↦ compile_from library option (i + 1) rest >>= λ rs. ok (with_regex r rs)
  ]

  abbrev error_at : CollectionType → ℕ → CollectionError
  error_at array_collection i = not_compiled (some i)
  error_at unknown_collection i = not_compiled none
  error_at set_collection i = not_compiled none
  error_at dictionary_collection i = not_compiled none

  abbrev pub made_of :
      CollectionType → ℕ ⊎ List Regex → Option (Made Regex) × Option CollectionError
  made_of kind (inl i) = (none, some (error_at kind i))
  made_of kind (inr rs) = (some (made kind rs), none)

  -- From the instance of the lock on.
  unfoldable pub init_of :
      Means Regex
      → Library
      → ℕ
      → CollectionType
      → List (RegexArgument Regex)
      → Outcome (Option (Made Regex) × Option CollectionError)
  init_of means library option kind objects =
      let compiled = compile_from library option 0 objects >>= λ rs. ok (made_of kind rs) in
      if not means.lock_made
      then ok (none, some no_lock)
      else if not means.missed_cache_made
      then raise malloc_exception
      else if length objects == 0
      then ok (none, none)
      else if not means.stack
      then raise malloc_exception
      else if not means.elements_made
      then raise malloc_exception
      else if not means.sorted_made
      then raise malloc_exception
      else compiled

  abbrev pub init_kind :
      Means Regex
      → Library
      → ℕ
      → CollectionArgument Regex
      → Outcome (Option (Made Regex) × Option CollectionError)
  init_kind means library option no_collection = raise invalid_argument
  init_kind means library option other_class = raise invalid_argument
  init_kind means library option (array_of objects) =
      init_of means library option array_collection objects
  init_kind means library option (set_of objects) =
      init_of means library option set_collection objects

  abbrev pub or_cached :
      Option (Made Regex)
      → Outcome (Option (Made Regex) × Option CollectionError)
      → Outcome (Option (Made Regex) × Option CollectionError)
  or_cached none o = o
  or_cached (some m) o = ok (some m, none)

  -- `initWithCollection:library:options:error:`
  unfoldable pub init_with_collection :
      Means Regex
      → CollectionArgument Regex
      → Option Library
      → ℕ
      → Outcome (Option (Made Regex) × Option CollectionError)
  init_with_collection means no_collection library option = raise invalid_argument
  init_with_collection means a none option = raise invalid_argument
  init_with_collection means a (some library) option =
      or_cached means.cached_in_init (init_kind means library option a)

  -- `sortedRegexCollectionForCollection:library:options:error:`
  unfoldable pub sorted_regex_collection_for :
      Means Regex
      → CollectionArgument Regex
      → Option Library
      → ℕ
      → Outcome (Option (Made Regex) × Option CollectionError)
  sorted_regex_collection_for means no_collection library option = raise invalid_argument
  sorted_regex_collection_for means a none option = raise invalid_argument
  sorted_regex_collection_for means a (some library) option =
      or_cached means.cached (init_with_collection means a (some library) option)
