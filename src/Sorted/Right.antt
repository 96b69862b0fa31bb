-- ===== src/Sorted/Right.antt =====
-- What an answer of `regexMatching:lowestIndexInCollection:` is to be, and what a search and a sort
-- keep.
use regexkit.Base.{
  sym, if_either, subst, inr, ◌==◌, inl, ◌+◌, Option-cases, arith, ◌*◌, refl, ◌∙◌, not, ◌&&◌, ◌||◌,
  none, false, some, true, ◌≡◌, length, ◌<◌, Option, List, Bool, ℕ,
}
-- What `regexMatching:lowestIndexInCollection:` answers, and what it keeps.
use regexkit.Foundation.{word}
use regexkit.Sorted.{is_set, is_array, Collection, element, new_search, entering}
use regexkit.Sorted.Threads.{all_entering}
use regexkit.Sorted.Soundness.{
  SearchFit, found-IsFit, run-SearchFit, run_alone-SearchFit, new_search-SearchFit,
}
use regexkit.Sorted.Searching.{is_sought}
use regexkit.Sorted.Alone.{run_alone-IsComplete}
use regexkit.Sorted.Matching.{Sorter, MatchObject, resort, is_missed, find}

pub record IsWhole (count : ℕ) (sorted : List ℕ) : Type 0 where
  pub covers : (i : ℕ) → i < count → (k : ℕ) × (k < length sorted) × (element sorted k ≡ i)
  pub bounded : (k : ℕ) → k < length sorted → element sorted k < count

-- `mergesort` only orders what it is given.
pub record IsSorting (mergesort : Sorter) : Type 0 where
  pub kept :
      (hits : ℕ → ℕ) (xs : List ℕ) (k : ℕ)
      → k < length xs
      → (j : ℕ) × (j < length (mergesort hits xs)) × (element (mergesort hits xs) j ≡ element xs k)
  pub only :
      (hits : ℕ → ℕ) (xs : List ℕ) (k : ℕ)
      → k < length (mergesort hits xs)
      → (j : ℕ) × (j < length xs) × (element (mergesort hits xs) k ≡ element xs j)

-- An answer is an element that matches, or none where there is none.
pub data IsRight (count : ℕ) (matches : ℕ → Bool) : Option ℕ → Type 0 where
  matching : (i : ℕ) → i < count → matches i ≡ true → IsRight count matches (some i)
  unmatched : ((i : ℕ) → i < count → matches i ≡ false) → IsRight count matches none

-- A collection of so many elements, as `initWithCollection:library:options:error:` makes it.
pub record IsCollection (count : ℕ) (c : Collection) : Type 0 where
  pub whole : IsWhole count c.sorted
  pub small : count < word
  pub supported : (is_set c.collection_type || is_array c.collection_type) ≡ true

-- No object has the hash 0, and objects of one hash match alike.
pub record IsTelling {O : Type 0} (objects : O → MatchObject) : Type 0 where
  pub positive : (o : O) → 0 < (objects o).hash
  pub alike :
      (o p : O)
      → (objects o).hash ≡ (objects p).hash
      → (i : ℕ) → (objects o).matches i ≡ (objects p).matches i

-- The object has a hash that the cache may hold: that of an empty bucket, or that of an object of the
-- family that no element matches.
pub data IsTaken {O : Type 0} (objects : O → MatchObject) (count : ℕ) (o : O) : Type 0 where
  zero_hash : (objects o).hash ≡ 0 → IsTaken objects count o
  shared_hash :
      (p : O)
      → (objects p).hash ≡ (objects o).hash
      → ((i : ℕ) → i < count → (objects p).matches i ≡ false)
      → IsTaken objects count o

-- The cache holds the hashes of objects that no element matches alone.
pub record IsRecorded {O : Type 0} (objects : O → MatchObject) (count : ℕ) (c : Collection)
    : Type 0 where
  pub misses : (o : O) → is_missed c (objects o) ≡ true → IsTaken objects count o

-- The answer for an object: a right one, or none by mistake, for the hash of the object.
pub data IsAnswer {O : Type 0} (objects : O → MatchObject) (count : ℕ) (o : O)
    : Option ℕ → Type 0 where
  sound :
      (answer : Option ℕ)
      → IsRight count (objects o).matches answer
      → IsAnswer objects count o answer
  mistaken : IsTaken objects count o → IsAnswer objects count o none

pub taken-unmatched :
    {O : Type 0} (objects : O → MatchObject) (count : ℕ) (o : O)
    → IsTelling objects
    → IsTaken objects count o
    → (i : ℕ) → i < count
    → (objects o).matches i ≡ false
taken-unmatched objects count o telling (zero_hash e) i f =
    absurd (ground (arith, telling.positive o, e))
taken-unmatched objects count o telling (shared_hash p e none_matches) i f =
    telling.alike o p (sym e) i ∙ none_matches i f

-- Where hashes tell the objects apart, the answer is right.
pub answer-IsRight :
    {O : Type 0} (objects : O → MatchObject) (count : ℕ) (o : O) (answer : Option ℕ)
    → IsTelling objects
    → IsAnswer objects count o answer
    → IsRight count (objects o).matches answer
answer-IsRight objects count o answer telling (sound given r) = r
answer-IsRight objects count o none telling (mistaken taken) =
    unmatched (taken-unmatched objects count o telling taken)

pub resort-IsWhole :
    (mergesort : Sorter) (for_writing : Bool) (count : ℕ) (c : Collection)
    → IsSorting mergesort
    → IsWhole count c.sorted
    → IsWhole count (resort mergesort for_writing c).sorted
unfolding resort
resort-IsWhole mergesort for_writing count c sorting v =
    if_either (λ d. IsWhole count d.sorted) (c.resort_required && for_writing) _ c
      (λ h. record {
        covers = λ i e.
            let (k, f, g) = v.covers i e in
            let (j, f', g') = sorting.kept c.hit_count c.sorted k f in (j, f', g' ∙ g);
        bounded =
            λ k e. let (j, f, g) = sorting.only c.hit_count c.sorted k e in rw g (v.bounded j f);
      })
      (λ h. v)

pub resort-collection_type :
    (mergesort : Sorter) (for_writing : Bool) (c : Collection)
    → (resort mergesort for_writing c).collection_type ≡ c.collection_type
unfolding resort
resort-collection_type mergesort for_writing c =
    if_either (λ d. d.collection_type ≡ c.collection_type) (c.resort_required && for_writing) _ c
      (λ h. refl) (λ h. refl)

pub resort-misses :
    (mergesort : Sorter) (for_writing : Bool) (c : Collection)
    → (resort mergesort for_writing c).missed_object_hash_cache ≡ c.missed_object_hash_cache
unfolding resort
resort-misses mergesort for_writing c =
    if_either (λ d. d.missed_object_hash_cache ≡ c.missed_object_hash_cache)
      (c.resort_required && for_writing) _ c (λ h. refl) (λ h. refl)

pub resort-IsCollection :
    (mergesort : Sorter) (for_writing : Bool) (count : ℕ) (c : Collection)
    → IsSorting mergesort
    → IsCollection count c
    → IsCollection count (resort mergesort for_writing c)
resort-IsCollection mergesort for_writing count c sorting v = record {
  whole = resort-IsWhole mergesort for_writing count c sorting v.whole;
  small = v.small;
  supported = rw (resort-collection_type mergesort for_writing c) v.supported;
}

find-SearchFit :
    (c : Collection) (matches : ℕ → Bool) (lowest : Bool) (schedule : Option (List ℕ))
    → SearchFit c.collection_type c.sorted matches lowest (find c matches lowest schedule)
unfolding find
find-SearchFit c matches lowest none =
    run_alone-SearchFit c.collection_type c.sorted matches lowest (6 * length c.sorted + 4)
      (new_search lowest) entering (new_search-SearchFit c.collection_type c.sorted matches lowest)
      tt
find-SearchFit c matches lowest (some schedule) =
    run-SearchFit c.collection_type c.sorted matches lowest schedule (new_search lowest)
      all_entering (new_search-SearchFit c.collection_type c.sorted matches lowest) (λ j. tt)

-- In every interleaving, what is found is an element that matches.
pub find-matching :
    (count : ℕ) (c : Collection) (matches : ℕ → Bool) (lowest : Bool) (schedule : Option (List ℕ))
    (i : ℕ)
    → IsWhole count c.sorted
    → (find c matches lowest schedule).matched_regex ≡ some i
    → (i < count) × (matches i ≡ true) × (is_sought c.collection_type lowest i ≡ true)
find-matching count c matches lowest schedule i v e =
    let (within, place, m, a) =
      found-IsFit c.collection_type c.sorted matches lowest (find c matches lowest schedule) i
        (find-SearchFit c matches lowest schedule) e in
    (rw (← place) (v.bounded _ within), m, a)

-- What a thread alone does not find is not there.
pub find-none :
    (count : ℕ) (c : Collection) (matches : ℕ → Bool) (lowest : Bool) (i : ℕ)
    → IsCollection count c
    → (find c matches lowest none).matched_regex ≡ none
    → i < count
    → (matches i && is_sought c.collection_type lowest i) ≡ false
unfolding find
find-none count c matches lowest i v e f =
    let (k, within, place) = v.whole.covers i f in
    let complete =
      run_alone-IsComplete c.collection_type c.sorted matches lowest (6 * length c.sorted + 4)
        v.supported (λ j g. omega (arith, v.whole.bounded j g, v.small)) (omega arith) in
    subst (λ j. (matches j && is_sought c.collection_type lowest j) ≡ false) place
      (complete.1 e k within)

any_sought :
    (m lowest set first : Bool)
    → (not lowest || set) ≡ true
    → (m && (not lowest || (set || first))) ≡ false
    → m ≡ false
any_sought m lowest set first h g = ground (arith, h, g)

-- A thread alone finds an element that matches, or there is none.
pub find-IsRight :
    (count : ℕ) (c : Collection) (matches : ℕ → Bool) (lowest : Bool)
    → IsCollection count c
    → (not lowest || is_set c.collection_type) ≡ true
    → IsRight count matches (find c matches lowest none).matched_regex
find-IsRight count c matches lowest v mode =
    elim (Option-cases (find c matches lowest none).matched_regex) [
      | inl e ↦ rw e (
          unmatched (λ i f.
            any_sought (matches i) lowest (is_set c.collection_type)
              (is_array c.collection_type && i == 0) mode
              (find-none count c matches lowest i v e f)))
      | inr (i, e) ↦
          let (within, m, a) = find-matching count c matches lowest none i v.whole e in
          rw e (matching i within m)
    ]
