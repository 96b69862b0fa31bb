-- ===== src/Sorted/Fresh.antt =====
-- What the initialiser makes of the objects of an array or a set.
use regexkit.Base.{
  false, zero, inr, refl, [], ◌==◌, none, suc, ap, some, ◌+◌, true, ◌∷◌, ◌≡◌, ok, arith, ◌∙◌,
  length, ◌<◌, ◌||◌, Option, Outcome, List, ℕ,
}
use regexkit.Foundation.{word}
use regexkit.Additions.{Regexes, RegexArgument}
use regexkit.Sorted.{
  unknown_collection, CollectionType, is_set, is_array, array_collection, set_collection, element,
}
use regexkit.Sorted.Matching.{MatchObject, is_missed}
use regexkit.Sorted.Right.{IsWhole, IsCollection, IsRecorded, zero_hash}
use regexkit.Sorted.Making.{
  no_collection, other_class, regex_for, Library, CollectionArgument, array_of, set_of,
  CollectionError, Made, Means, indexes, made, compile_from, or_cached, init_of,
  init_with_collection, sorted_regex_collection_for,
}

module _ {R : Type 0} where
  length-indexes : (i : ℕ) (rs : List R) → length (indexes i rs) ≡ length rs
  length-indexes i [] = refl
  length-indexes i (r ∷ rs) = ap suc (length-indexes (i + 1) rs)

  element-indexes : (i : ℕ) (rs : List R) (k : ℕ) → k < length rs → element (indexes i rs) k ≡ i + k
  element-indexes i [] k e = absurd (omega (arith, e))
  element-indexes i (r ∷ rs) zero e = omega arith
  element-indexes i (r ∷ rs) (suc k) e =
      let rest = element-indexes (i + 1) rs k (omega (arith, e)) in rest ∙ omega arith

  pub indexes-IsWhole : (rs : List R) → IsWhole (length rs) (indexes 0 rs)
  indexes-IsWhole rs = record {
    covers = λ i e. (i, rw (length-indexes 0 rs) e, element-indexes 0 rs i e ∙ omega arith);
    bounded = λ k e.
        let within = rw (length-indexes 0 rs) at e in
        rw (element-indexes 0 rs k within) (omega (arith, within));
  }

  made-IsCollection :
      (kind : CollectionType) (rs : List R)
      → (is_set kind || is_array kind) ≡ true
      → length rs < word
      → IsCollection (length rs) (made kind rs).state
  made-IsCollection kind rs supported small = record {
    whole = indexes-IsWhole rs;
    small = small;
    supported = supported;
  }

  -- The cache of missed objects starts with zeros.
  made-IsRecorded :
      {O : Type 0} (objects : O → MatchObject) (kind : CollectionType) (rs : List R)
      → IsRecorded objects (length rs) (made kind rs).state
  unfolding is_missed
  made-IsRecorded objects kind rs = record { misses = λ o e. zero_hash (ground (arith, e)) }

-- The objects of an array or a set, and its kind.
abbrev pub given_objects : {R : Type 0} → CollectionArgument R → List (RegexArgument R)
given_objects no_collection = []
given_objects other_class = []
given_objects (array_of objects) = objects
given_objects (set_of objects) = objects

abbrev pub given_kind : {R : Type 0} → CollectionArgument R → CollectionType
given_kind no_collection = unknown_collection
given_kind other_class = unknown_collection
given_kind (array_of objects) = array_collection
given_kind (set_of objects) = set_collection

-- Neither lookup finds the collection in the cache, and all memory and the lock are had.
pub record IsFresh {R : Type 0} (means : Means R) : Type 0 where
  pub cached : means.cached ≡ none
  pub cached_in_init : means.cached_in_init ≡ none
  pub lock : means.lock_made ≡ true
  pub missed_cache : means.missed_cache_made ≡ true
  pub stack : means.stack ≡ true
  pub elements : means.elements_made ≡ true
  pub sorted : means.sorted_made ≡ true

module _ (W : Regexes) (library : Library) (option : ℕ) where
  open W use {Regex}

  -- Each object gives a regex, in the order of the collection.
  abbrev pub AreCompiled : List (RegexArgument Regex) → List Regex → Type 0
  AreCompiled [] [] = Unit {0}
  AreCompiled [] (r ∷ rs) = ⊥
  AreCompiled (a ∷ objects) [] = ⊥
  AreCompiled (a ∷ objects) (r ∷ rs) =
      (regex_for W library option a ≡ ok (some r)) × AreCompiled objects rs

  compile_from-AreCompiled :
      (i : ℕ) (objects : List (RegexArgument Regex)) (rs : List Regex)
      → AreCompiled objects rs
      → compile_from W library option i objects ≡ ok (inr rs)
  unfolding compile_from
  compile_from-AreCompiled i [] [] compiled = refl
  compile_from-AreCompiled i [] (r ∷ rs) compiled = absurd compiled
  compile_from-AreCompiled i (a ∷ objects) [] compiled = absurd compiled
  compile_from-AreCompiled i (a ∷ objects) (r ∷ rs) (e, compiled) =
      rw (e, compile_from-AreCompiled (i + 1) objects rs compiled) refl

  length-compiled :
      (objects : List (RegexArgument Regex)) (rs : List Regex)
      → AreCompiled objects rs
      → length objects ≡ length rs
  length-compiled [] [] compiled = refl
  length-compiled [] (r ∷ rs) compiled = absurd compiled
  length-compiled (a ∷ objects) [] compiled = absurd compiled
  length-compiled (a ∷ objects) (r ∷ rs) (e, compiled) =
      ap suc (length-compiled objects rs compiled)

  or_cached-fresh :
      (cached : Option (Made Regex)) (o : Outcome (Option (Made Regex) × Option CollectionError))
      → cached ≡ none
      → or_cached W cached o ≡ o
  or_cached-fresh none o e = refl
  or_cached-fresh (some m) o e = absurd (ground (arith, e))

  named-fresh :
      (means : Means Regex) (o : Outcome (Option (Made Regex) × Option CollectionError))
      → IsFresh means
      → or_cached W means.cached (or_cached W means.cached_in_init o) ≡ o
  named-fresh means o v =
      or_cached-fresh means.cached _ v.cached
      ∙ or_cached-fresh means.cached_in_init o v.cached_in_init

  init_of-compiled :
      (means : Means Regex) (kind : CollectionType) (objects : List (RegexArgument Regex))
      (rs : List Regex)
      → IsFresh means
      → 0 < length objects
      → AreCompiled objects rs
      → init_of W means library option kind objects ≡ ok (some (made kind rs), none)
  unfolding init_of
  init_of-compiled means kind objects rs v some_object compiled =
      let not_empty : (length objects == 0) ≡ false = ground (arith, some_object) in
      rw
        (
          v.lock,
          v.missed_cache,
          not_empty,
          v.stack,
          v.elements,
          v.sorted,
          compile_from-AreCompiled 0 objects rs compiled,
        )
        refl

  supported_kind :
      (a : CollectionArgument Regex)
      → 0 < length (given_objects a)
      → (is_set (given_kind a) || is_array (given_kind a)) ≡ true
  supported_kind no_collection h = absurd (omega (arith, h))
  supported_kind other_class h = absurd (omega (arith, h))
  supported_kind (array_of objects) h = refl
  supported_kind (set_of objects) h = refl

  sorted_regex_collection_for-made :
      (means : Means Regex) (a : CollectionArgument Regex) (rs : List Regex)
      → IsFresh means
      → 0 < length (given_objects a)
      → AreCompiled (given_objects a) rs
      → sorted_regex_collection_for W means a (some library) option
        ≡ ok (some (made (given_kind a) rs), none)
  unfolding sorted_regex_collection_for init_with_collection
  sorted_regex_collection_for-made means no_collection rs v h compiled = absurd (omega (arith, h))
  sorted_regex_collection_for-made means other_class rs v h compiled = absurd (omega (arith, h))
  sorted_regex_collection_for-made means (array_of objects) rs v h compiled =
      named-fresh means (init_of W means library option array_collection objects) v
      ∙ init_of-compiled means array_collection objects rs v h compiled
  sorted_regex_collection_for-made means (set_of objects) rs v h compiled =
      named-fresh means (init_of W means library option set_collection objects) v
      ∙ init_of-compiled means set_collection objects rs v h compiled

  -- An array or a set that is not in the cache yet, of objects that all compile, at least one and fewer
  -- than a word counts, gives with no error the collection of the regexes of its objects, in their
  -- order, if all memory and the lock are had. Each regex is at one place of the sorted order, and the
  -- cache of missed objects takes exactly the objects with the hash 0 for missed.
  pub sorted_regex_collection_for-fresh :
      {O : Type 0} (objects : O → MatchObject) (means : Means Regex) (a : CollectionArgument Regex)
      (rs : List Regex)
      → IsFresh means
      → 0 < length (given_objects a)
      → length (given_objects a) < word
      → AreCompiled (given_objects a) rs
      → (sorted_regex_collection_for W means a (some library) option
          ≡ ok (some (made (given_kind a) rs), none))
        × IsCollection (length rs) (made (given_kind a) rs).state
        × IsRecorded objects (length rs) (made (given_kind a) rs).state
        × ((o : O) → is_missed (made (given_kind a) rs).state (objects o) ≡ (0 == (objects o).hash))
  unfolding is_missed
  sorted_regex_collection_for-fresh objects means a rs v some_object small compiled = (
    sorted_regex_collection_for-made means a rs v some_object compiled,
    made-IsCollection (given_kind a) rs (supported_kind a some_object)
        (rw (length-compiled (given_objects a) rs compiled) at small),
    made-IsRecorded objects (given_kind a) rs,
    λ o. refl,
  )
