-- ===== src/Sorted/Answers.antt =====
use regexkit.Base.{
  if_either, ok, inr, ◌==◌, Bool-cases, inl, Option-cases, arith, refl, not, ◌||◌, none, false,
  true, ◌≡◌, ◌<◌, Option, Bool, ℕ,
}
-- What `regexMatching:lowestIndexInCollection:` answers, and what it keeps.
use regexkit.Sorted.{is_none, is_set, Collection, Search}
use regexkit.Sorted.Matching.{
  increment, require_resort, bucket, remember_miss, Sorter, MatchObject, Circumstances, resort,
  is_missed, find, note, count_hit, count_miss, match_locked, regex_matching,
}
use regexkit.Sorted.Right.{
  sound, IsAnswer, mistaken, shared_hash, IsSorting, IsRight, matching, unmatched, IsCollection,
  IsRecorded, resort-collection_type, resort-misses, resort-IsCollection, find-IsRight,
}

missed_by_all :
    (count : ℕ) (matches : ℕ → Bool) (answer : Option ℕ)
    → IsRight count matches answer
    → answer ≡ none
    → (i : ℕ) → i < count
    → matches i ≡ false
missed_by_all count matches answer (matching i f m) e = absurd (ground (arith, e))
missed_by_all count matches answer (unmatched h) e = h

counted-IsCollection :
    (count : ℕ) (c : Collection) → IsCollection count c → IsCollection count (count_hit c)
counted-IsCollection count c v = record {
  whole = v.whole;
  small = v.small;
  supported = v.supported;
}

missed-IsCollection :
    (count : ℕ) (probe_enabled : Bool) (c : Collection)
    → IsCollection count c
    → IsCollection count (count_miss probe_enabled c)
missed-IsCollection count probe_enabled c v = record {
  whole = v.whole;
  small = v.small;
  supported = v.supported;
}

note-IsCollection :
    (count : ℕ) (c : Collection) (o : MatchObject) (s : Search)
    → IsCollection count c
    → IsCollection count (note c o s)
unfolding note
note-IsCollection count c o s v =
    if_either (IsCollection count) (is_none s.matched_regex) (remember_miss c o)
      (require_resort (increment c s.matching_sorted_index) s.matching_sorted_index)
      (λ e. record { whole = v.whole; small = v.small; supported = v.supported })
      (λ e. record { whole = v.whole; small = v.small; supported = v.supported })

module _ {O : Type 0} (objects : O → MatchObject) (count : ℕ) where
  pub resort-IsRecorded :
      (mergesort : Sorter) (for_writing : Bool) (c : Collection)
      → IsRecorded objects count c
      → IsRecorded objects count (resort mergesort for_writing c)
  unfolding is_missed
  resort-IsRecorded mergesort for_writing c h = record {
    misses = λ o e. h.misses o (rw (resort-misses mergesort for_writing c) at e);
  }

  remember_miss-IsRecorded :
      (c : Collection) (o : O)
      → ((i : ℕ) → i < count → (objects o).matches i ≡ false)
      → IsRecorded objects count c
      → IsRecorded objects count (remember_miss c (objects o))
  unfolding is_missed
  remember_miss-IsRecorded c o none_matches h = record {
    misses = λ p e. elim (Bool-cases (bucket (objects p) == bucket (objects o))) [
      | inl same ↦ shared_hash o (ground (arith, rw same at e)) none_matches
      | inr different ↦ h.misses p (rw different at e)
    ];
  }

  note-IsRecorded :
      (c : Collection) (o : O) (s : Search)
      → IsRight count (objects o).matches s.matched_regex
      → IsRecorded objects count c
      → IsRecorded objects count (note c (objects o) s)
  unfolding note is_missed
  note-IsRecorded c o s right h = elim (Option-cases s.matched_regex) [
    | inl e ↦
        rw e (remember_miss-IsRecorded c o (missed_by_all count (objects o).matches _ right e) h)
    | inr (i, e) ↦ rw e (record { misses = h.misses })
  ]

  count_miss-IsRecorded :
      (probe_enabled : Bool) (c : Collection)
      → IsRecorded objects count c
      → IsRecorded objects count (count_miss probe_enabled c)
  unfolding is_missed
  count_miss-IsRecorded probe_enabled c h = record { misses = h.misses }

  count_hit-IsRecorded :
      (c : Collection) → IsRecorded objects count c → IsRecorded objects count (count_hit c)
  unfolding is_missed
  count_hit-IsRecorded c h = record { misses = h.misses }

  -- What a call without other threads leaves, and answers.
  abbrev pub IsAnswered : O → Option ℕ × Collection → Type 0
  IsAnswered o (answer, c) =
      IsAnswer objects count o answer × IsCollection count c × IsRecorded objects count c

  match_locked-IsAnswered :
      (c : Collection) (o : O) (lowest probe_enabled : Bool)
      → IsCollection count c
      → IsRecorded objects count c
      → (not lowest || is_set c.collection_type) ≡ true
      → IsAnswered o (match_locked c (objects o) lowest probe_enabled none)
  unfolding match_locked
  match_locked-IsAnswered c o lowest probe_enabled v h mode =
      let s = find c (objects o).matches lowest none in
      let right = find-IsRight count c (objects o).matches lowest v mode in
      let missed = count_miss probe_enabled c in
      if_either (IsAnswered o) (is_missed c (objects o)) (none, count_hit c)
        (s.matched_regex, note missed (objects o) s)
        (λ g. (mistaken (h.misses o g), counted-IsCollection count c v, count_hit-IsRecorded c h))
        (λ g. (
          sound s.matched_regex right,
          note-IsCollection count missed (objects o) s
              (missed-IsCollection count probe_enabled c v),
          note-IsRecorded missed o s right (count_miss-IsRecorded probe_enabled c h),
        ))

-- A call whose thread searches alone, for any regex or in a set, and that gets the lock, answers an
-- element that matches the object, or none where none matches; but it also answers none by mistake,
-- where the object has the hash 0 or the hash of an object that no element matches. The collection
-- stays whole, and its cache goes on to hold hashes of such objects alone, whatever the sorting and
-- the probe do: so do all later answers.
pub regex_matching-answers :
    {O : Type 0} (objects : O → MatchObject) (count : ℕ) (mergesort : Sorter) (at : Circumstances)
    (o : O) (lowest : Bool) (c : Collection)
    → IsSorting mergesort
    → IsCollection count c
    → IsRecorded objects count c
    → at.locked ≡ true
    → at.schedule ≡ none
    → (not lowest || is_set c.collection_type) ≡ true
    → (r : Option ℕ × Collection) × (regex_matching mergesort at (objects o) lowest c ≡ ok r)
      × IsAnswered objects count o r
unfolding regex_matching
regex_matching-answers objects count mergesort at o lowest c sorting v h locked alone mode =
    let d = resort mergesort at.for_writing c in
    (
      match_locked d (objects o) lowest at.probe_enabled none,
      rw (locked, alone) refl,
      match_locked-IsAnswered objects count d o lowest at.probe_enabled
          (resort-IsCollection mergesort at.for_writing count c sorting v)
          (resort-IsRecorded objects count mergesort at.for_writing c h)
          (rw (resort-collection_type mergesort at.for_writing c) mode),
    )
