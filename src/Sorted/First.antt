-- ===== src/Sorted/First.antt =====
-- `firstRegexMatching:` of Source/RKSortedRegexCollection.m on an array, where one thread searches.
use regexkit.Base.{
  refl, inr, if_either, ◌∙◌, zero, inl, ok, Option-cases, arith, suc, none, some, false, ◌<◌, true,
  ◌&&◌, ◌≡◌, Option, ℕ, Bool,
}
use regexkit.Sorted.{CollectionType, array_collection, Collection}
use regexkit.Sorted.Searching.{is_sought}
use regexkit.Sorted.Matching.{
  Sorter, MatchObject, Circumstances, find, is_missed, match_locked, resort, regex_matching,
}
use regexkit.Sorted.Right.{
  IsSorting, IsCollection, IsTelling, IsRecorded, find-none, find-matching, taken-unmatched,
  resort-IsCollection, resort-collection_type,
}
use regexkit.Sorted.Answers.{resort-IsRecorded}

-- The first element where it matches, and none otherwise, whatever the others do.
pub data IsFirstElement (count : ℕ) (matches : ℕ → Bool) : Option ℕ → Type 0 where
  first : 0 < count → matches 0 ≡ true → IsFirstElement count matches (some 0)
  nothing : (0 < count → matches 0 ≡ false) → IsFirstElement count matches none

found_at_first :
    (count : ℕ) (kind : CollectionType) (matches : ℕ → Bool) (i : ℕ)
    → kind ≡ array_collection
    → (i < count) × (matches i ≡ true) × (is_sought kind true i ≡ true)
    → IsFirstElement count matches (some i)
found_at_first count kind matches zero array (within, m, sought) = first within m
found_at_first count kind matches (suc i) array (within, m, sought) =
    absurd (ground (arith, rw array at sought))

not_sought :
    (m : Bool) (kind : CollectionType)
    → kind ≡ array_collection
    → (m && is_sought kind true 0) ≡ false
    → m ≡ false
not_sought m kind array e = let f = rw array at e in ground (arith, f)

find-IsFirstElement :
    (count : ℕ) (c : Collection) (matches : ℕ → Bool)
    → IsCollection count c
    → c.collection_type ≡ array_collection
    → IsFirstElement count matches (find c matches true none).matched_regex
find-IsFirstElement count c matches v array =
    elim (Option-cases (find c matches true none).matched_regex) [
      | inl e ↦ rw e (
          nothing (λ f.
            not_sought (matches 0) c.collection_type array
              (find-none count c matches true 0 v e f)))
      | inr (i, e) ↦ rw e (
          found_at_first count c.collection_type matches i array
            (find-matching count c matches true none i v.whole e))
    ]

-- The answer of a call on an array where hashes tell the objects apart.
pub regex_matching-IsFirstElement :
    {O : Type 0} (objects : O → MatchObject) (count : ℕ) (mergesort : Sorter) (at : Circumstances)
    (o : O) (c : Collection)
    → IsSorting mergesort
    → IsTelling objects
    → IsCollection count c
    → IsRecorded objects count c
    → at.locked ≡ true
    → at.schedule ≡ none
    → c.collection_type ≡ array_collection
    → (r : Option ℕ × Collection) × (regex_matching mergesort at (objects o) true c ≡ ok r)
      × IsFirstElement count (objects o).matches r.0
unfolding regex_matching match_locked
regex_matching-IsFirstElement objects count mergesort at o c sorting telling v h locked alone
      array =
    let d = resort mergesort at.for_writing c in
    let w = resort-IsCollection mergesort at.for_writing count c sorting v in
    let kept = resort-IsRecorded objects count mergesort at.for_writing c h in
    let kind = resort-collection_type mergesort at.for_writing c ∙ array in
    let r = match_locked d (objects o) true at.probe_enabled none in
    (
      r,
      rw (locked, alone) refl,
      if_either {A = Option ℕ × Collection} (λ s. IsFirstElement count (objects o).matches s.0)
          (is_missed d (objects o)) _ _
          (λ g. nothing (taken-unmatched objects count o telling (kept.misses o g) 0))
          (λ g. find-IsFirstElement count d (objects o).matches w kind),
    )
