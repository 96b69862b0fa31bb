-- ===== src/Sorted/Interleaved.antt =====
-- `regexMatching:lowestIndexInCollection:` where threads of a pool search, and the search for the
-- lowest index.
use regexkit.Base.{
  refl, Option-cases, zero, suc, ◌∙◌, refl, false, inr, inl, out_of_fuel, none, ap, Bool-cases,
  List, raise, ◌<◌, arith, Option, Outcome, some, true, ok, Bool, ◌≡◌,
}
use regexkit.Sorted.{ℕ, array_collection, Collection, CollectionType, Search}
use regexkit.Sorted.Searching.{is_sought}
use regexkit.Sorted.Matching.{
  Sorter, MatchObject, Circumstances, resort, is_missed, find, note, count_hit, count_miss,
  remember_miss, match_locked, regex_matching, first_regex_matching,
}
use regexkit.Sorted.Right.{
  IsWhole, IsSorting, find-matching, resort-IsWhole, resort-collection_type, resort-misses,
}

ok-injective : {A : Type 0} {a b : A} → ok a ≡ ok b → a ≡ b
ok-injective {A = A} {a = a} e = ap (or_else a) e
  where
    or_else : A → Outcome A → A
    or_else d (ok b) = b
    or_else d (raise x) = d
    or_else d out_of_fuel = d

pub regex_matching-locked :
    (mergesort : Sorter) (at : Circumstances) (o : MatchObject) (lowest : Bool) (c : Collection)
    → at.locked ≡ true
    → regex_matching mergesort at o lowest c
      ≡ ok (match_locked (resort mergesort at.for_writing c) o lowest at.probe_enabled at.schedule)
unfolding regex_matching
regex_matching-locked mergesort at o lowest c locked = rw locked refl

match_locked-matching :
    (count : ℕ) (c : Collection) (o : MatchObject) (lowest probe_enabled : Bool)
    (schedule : Option (List ℕ)) (i : ℕ)
    → IsWhole count c.sorted
    → (match_locked c o lowest probe_enabled schedule).0 ≡ some i
    → (i < count) × (o.matches i ≡ true) × (is_sought c.collection_type lowest i ≡ true)
unfolding match_locked
match_locked-matching count c o lowest probe_enabled schedule i v e =
    elim (Bool-cases (is_missed c o)) [
      | inl missed ↦ absurd (ground (arith, rw missed at e))
      | inr fresh ↦ find-matching count c o.matches lowest schedule i v (rw fresh at e)
    ]

-- Whatever the threads, the lock, the sorting and the cache do, an answer other than `NULL` is an
-- element whose regex matches the object, and where the lowest index of an array is sought, it is the
-- first element.
pub regex_matching-matching :
    (count : ℕ) (mergesort : Sorter) (at : Circumstances) (o : MatchObject) (lowest : Bool)
    (c c' : Collection) (i : ℕ)
    → IsSorting mergesort
    → IsWhole count c.sorted
    → regex_matching mergesort at o lowest c ≡ ok (some i, c')
    → (i < count) × (o.matches i ≡ true) × (is_sought c.collection_type lowest i ≡ true)
unfolding regex_matching
regex_matching-matching count mergesort at o lowest c c' i sorting v e =
    let d = resort mergesort at.for_writing c in
    elim (Bool-cases at.locked) [
      | inl locked ↦
          let same = ok-injective (rw locked at e) in
          rw (← resort-collection_type mergesort at.for_writing c) (
            match_locked-matching count d o lowest at.probe_enabled at.schedule i
              (resort-IsWhole mergesort at.for_writing count c sorting v) (ap (λ r. r.0) same))
      | inr unlocked ↦ absurd (ground (arith, rw unlocked at e))
    ]

match_locked-missed :
    (c : Collection) (o : MatchObject) (lowest probe_enabled : Bool) (schedule : Option (List ℕ))
    → is_missed c o ≡ true
    → match_locked c o lowest probe_enabled schedule ≡ (none, count_hit c)
unfolding match_locked
match_locked-missed c o lowest probe_enabled schedule missed = rw missed refl

resort-is_missed :
    (mergesort : Sorter) (for_writing : Bool) (c : Collection) (o : MatchObject)
    → is_missed c o ≡ true
    → is_missed (resort mergesort for_writing c) o ≡ true
unfolding is_missed
resort-is_missed mergesort for_writing c o e = rw (resort-misses mergesort for_writing c) e

remember_miss-is_missed :
    (c : Collection) (o : MatchObject) → is_missed (remember_miss c o) o ≡ true
unfolding is_missed
remember_miss-is_missed c o = ground arith

hit-is_missed :
    (c : Collection) (o : MatchObject) → is_missed c o ≡ true → is_missed (count_hit c) o ≡ true
unfolding is_missed
hit-is_missed c o e = e

noted-is_missed :
    (c : Collection) (o : MatchObject) (s : Search)
    → s.matched_regex ≡ none
    → is_missed (note c o s) o ≡ true
unfolding note
noted-is_missed c o s e = rw e (remember_miss-is_missed c o)

-- What is answered `NULL` is noted as missed.
match_locked-is_missed :
    (c : Collection) (o : MatchObject) (lowest probe_enabled : Bool) (schedule : Option (List ℕ))
    → (match_locked c o lowest probe_enabled schedule).0 ≡ none
    → is_missed (match_locked c o lowest probe_enabled schedule).1 o ≡ true
unfolding match_locked
match_locked-is_missed c o lowest probe_enabled schedule e = elim (Bool-cases (is_missed c o)) [
  | inl missed ↦ rw missed (hit-is_missed c o missed)
  | inr fresh ↦ rw fresh (
      noted-is_missed (count_miss probe_enabled c) o (find c o.matches lowest schedule)
        (rw fresh at e))
]

answered-is_missed :
    (mergesort : Sorter) (at : Circumstances) (o : MatchObject) (lowest : Bool) (c c' : Collection)
    → regex_matching mergesort at o lowest c ≡ ok (none, c')
    → is_missed c' o ≡ true
unfolding regex_matching
answered-is_missed mergesort at o lowest c c' e = elim (Bool-cases at.locked) [
  | inl locked ↦
      let same = ok-injective (rw locked at e) in
      rw (← ap (λ r. r.1) same) (
        match_locked-is_missed (resort mergesort at.for_writing c) o lowest at.probe_enabled
          at.schedule (ap (λ r. r.0) same))
  | inr unlocked ↦ absurd (ground (arith, rw unlocked at e))
]

-- Once the object is answered `NULL`, it is answered `NULL` by each later call.
pub regex_matching-missed :
    (mergesort : Sorter) (at later : Circumstances) (o : MatchObject) (lowest lowest_later : Bool)
    (c c' : Collection)
    → regex_matching mergesort at o lowest c ≡ ok (none, c')
    → later.locked ≡ true
    → (c'' : Collection) × (regex_matching mergesort later o lowest_later c' ≡ ok (none, c''))
unfolding regex_matching
regex_matching-missed mergesort at later o lowest lowest_later c c' e locked =
    let d = resort mergesort later.for_writing c' in
    (
      count_hit d,
      rw locked (
          ap ok (
            match_locked-missed d o lowest_later later.probe_enabled later.schedule (
              resort-is_missed mergesort later.for_writing c' o
                (answered-is_missed mergesort at o lowest c c' e)))),
    )

-- What is found of an array at the lowest index is the first element.
found_first :
    (kind : CollectionType) (matches : ℕ → Bool) (i : ℕ)
    → kind ≡ array_collection
    → matches 0 ≡ false
    → matches i ≡ true
    → is_sought kind true i ≡ true
    → ⊥
found_first kind matches zero k u m e = ground (arith, u, m)
found_first kind matches (suc i) k u m e = ground (arith, rw k at e)

answer_none : (r : Option ℕ × Collection) → r.0 ≡ none → ok r ≡ ok (none, r.1)
answer_none r e = ap (λ a. ok (a, r.1)) e

nothing_first :
    (count : ℕ) (mergesort : Sorter) (at : Circumstances) (o : MatchObject) (c : Collection)
    → IsSorting mergesort
    → IsWhole count c.sorted
    → c.collection_type ≡ array_collection
    → o.matches 0 ≡ false
    → at.locked ≡ true
    → (c' : Collection) × (regex_matching mergesort at o true c ≡ ok (none, c'))
nothing_first count mergesort at o c sorting v kind unmatched locked =
    let r = match_locked (resort mergesort at.for_writing c) o true at.probe_enabled at.schedule in
    let answered = regex_matching-locked mergesort at o true c locked in
    (
      r.1,
      answered ∙ elim (Option-cases r.0) [
        | inl e ↦ answer_none r e
        | inr (i, e) ↦
            let (within, m, a) =
              regex_matching-matching count mergesort at o true c r.1 i sorting v
                (answered ∙ ap (λ d. ok (d, r.1)) e) in
            absurd (found_first c.collection_type o.matches i kind unmatched m a)
      ],
    )

-- Where the first element of an array does not match the object, a call of `firstRegexMatching:`
-- answers `NULL`, and so does the call for the object that directly follows, for the first regex or
-- for any, whatever its circumstances, where both get the lock.
pub first_regex_matching-hides :
    (count : ℕ) (mergesort : Sorter) (at later : Circumstances) (o : MatchObject)
    (lowest_later : Bool) (c : Collection)
    → IsSorting mergesort
    → IsWhole count c.sorted
    → c.collection_type ≡ array_collection
    → o.matches 0 ≡ false
    → at.locked ≡ true
    → later.locked ≡ true
    → (c' : Collection) × (first_regex_matching mergesort at o c ≡ ok (none, c'))
      × (c'' : Collection) × (regex_matching mergesort later o lowest_later c' ≡ ok (none, c''))
unfolding first_regex_matching
first_regex_matching-hides count mergesort at later o lowest_later c sorting v kind unmatched locked
      locked_later =
    let (c', e) = nothing_first count mergesort at o c sorting v kind unmatched locked in
    let (c'', f) =
      regex_matching-missed mergesort at later o true lowest_later c c' e locked_later in
    (c', e, c'', f)
