-- ===== src/Sorted/Soundness.antt =====
-- What a search finds matches, in every interleaving of its threads.
use regexkit.Base.{
  if_either, zero, suc, ℕ, ◌<◌, ◌≡◌, ◌⊎◌, refl, arith, inl, inr, ltb, ◌==◌, Bool, true, not, ◌&&◌,
  ◌||◌, some, none, List, [], ◌∷◌, length, sym, ◌∙◌, some-injective,
}
use regexkit.Sorted.{
  CollectionType, is_set, is_array, is_none, Search, new_search, Thread, entering, fetching,
  leaving, ended, checking, comparing, publishing, lowering, reading, swapping, element, goes_on,
  step,
}
use regexkit.Sorted.Threads.{run_alone, Threads, put, run}

third_true : (a b d : Bool) (k n : ℕ) → (a && (b && (ltb k n && d))) ≡ true → k < n
third_true a b d k n h = ground (arith, h)

module _ (kind : CollectionType) (sorted : List ℕ) (matches : ℕ → Bool) (lowest : Bool) where
  -- The place may be published: its regex matches, and where the lowest index of an array is sought
  -- it is the first element.
  pub record IsFit (k : ℕ) : Type 0 where
    pub within : k < length sorted
    pub matching : matches (element sorted k) ≡ true
    pub allowed : (not lowest || (is_set kind || (is_array kind && element sorted k == 0))) ≡ true

  -- What is known of a thread by where it is.
  abbrev ThreadFit : Thread → Type 0
  ThreadFit entering = Unit {0}
  ThreadFit fetching = Unit {0}
  ThreadFit leaving = Unit {0}
  ThreadFit ended = Unit {0}
  ThreadFit (checking k) = Unit {0}
  ThreadFit (comparing k) = k < length sorted
  ThreadFit (publishing k) = IsFit k
  ThreadFit (lowering k) = Unit {0}
  ThreadFit (reading k) = Unit {0}
  ThreadFit (swapping k highest) = Unit {0}

  -- What is known of the shared state.
  pub record SearchFit (s : Search) : Type 0 where
    pub mode : s.find_lowest_index ≡ lowest
    pub found :
        (s.matched_regex ≡ none)
        ⊎ ((k : ℕ) × (s.matched_regex ≡ some (element sorted k))
            × (s.matching_sorted_index ≡ k)
            × IsFit k)

  abbrev Fits : Search × Thread → Type 0
  Fits (s, t) = SearchFit s × ThreadFit t

  finish : (s : Search) → SearchFit s → SearchFit (record s { finished = true })
  finish s v = record { mode = v.mode; found = v.found }

  lower :
      (s : Search) (n : ℕ) → SearchFit s → SearchFit (record s { highest_matching_array_index = n })
  lower s n v = record { mode = v.mode; found = v.found }

  publish :
      (s : Search) (k : ℕ)
      → SearchFit s
      → IsFit k
      → SearchFit (record s {
        matched_regex = some (element sorted k);
        matching_sorted_index = k;
        matching_collection_index = element sorted k;
        finished = true;
      })
  publish s k v w = record { mode = v.mode; found = inr (k, refl, refl, w) }

  fit :
      (s : Search) (k : ℕ)
      → SearchFit s
      → k < length sorted
      → matches (element sorted k) ≡ true
      → (not s.find_lowest_index || (is_set kind || (is_array kind && element sorted k == 0)))
        ≡ true
      → IsFit k
  fit s k v w m a = record { within = w; matching = m; allowed = rw (← v.mode) a }

  step-Fits :
      (s : Search) (t : Thread) → SearchFit s → ThreadFit t → Fits (step kind sorted matches s t)
  unfolding step
  step-Fits s entering v w = if_either Fits _ _ _ (λ h. (v, tt)) (λ h. (v, tt))
  step-Fits s fetching v w = (record { mode = v.mode; found = v.found }, tt)
  step-Fits s (checking k) v w =
      if_either Fits (goes_on kind sorted matches s k) _ (s, leaving)
        (λ h.
          if_either Fits (ltb s.highest_matching_array_index (element sorted k)) (s, fetching)
            (s, comparing k) (λ g. (v, tt))
            (λ g. (
              v,
              third_true (not s.finished) (is_none s.matched_regex)
                  (ltb 0 s.highest_matching_array_index) k (length sorted) h,
            )))
        (λ h. (v, tt))
  step-Fits s (comparing k) v w =
      if_either Fits (matches (element sorted k)) _ _
        (λ m.
          if_either Fits _ (s, publishing k) (s, lowering k) (λ a. (v, fit s k v w m a))
            (λ a. (v, tt)))
        (λ m. if_either Fits _ _ _ (λ g. (finish s v, tt)) (λ g. (v, tt)))
  step-Fits s (publishing k) v w = if_either Fits _ _ _ (λ h. (publish s k v w, tt)) (λ h. (v, tt))
  step-Fits s (lowering k) v w = if_either Fits _ _ _ (λ h. (v, tt)) (λ h. (v, tt))
  step-Fits s (reading k) v w = (v, tt)
  step-Fits s (swapping k highest) v w =
      if_either Fits _ _ _ (λ h. (lower s (element sorted k) v, tt)) (λ h. (v, tt))
  step-Fits s leaving v w = if_either Fits _ _ _ (λ h. (finish s v, tt)) (λ h. (v, tt))
  step-Fits s ended v w = (v, tt)

  put-fit :
      (ts : Threads) (i j : ℕ) (t : Thread)
      → ThreadFit t
      → ThreadFit (ts j)
      → ThreadFit (put ts i t j)
  put-fit ts i j t w own = if_either ThreadFit (j == i) t (ts j) (λ h. w) (λ h. own)

  pub run-SearchFit :
      (schedule : List ℕ) (s : Search) (ts : Threads)
      → SearchFit s
      → ((i : ℕ) → ThreadFit (ts i))
      → SearchFit (run kind sorted matches schedule s ts).0
  unfolding run
  run-SearchFit [] s ts v w = v
  run-SearchFit (i ∷ schedule) s ts v w =
      let (v', w') = step-Fits s (ts i) v (w i) in
      run-SearchFit schedule (step kind sorted matches s (ts i)).0
        (put ts i (step kind sorted matches s (ts i)).1) v'
        (λ j. put-fit ts i j (step kind sorted matches s (ts i)).1 w' (w j))

  pub run_alone-SearchFit :
      (fuel : ℕ) (s : Search) (t : Thread)
      → SearchFit s
      → ThreadFit t
      → SearchFit (run_alone kind sorted matches fuel s t).0
  unfolding run_alone
  run_alone-SearchFit zero s t v w = v
  run_alone-SearchFit (suc fuel) s t v w =
      let (v', w') = step-Fits s t v w in
      run_alone-SearchFit fuel (step kind sorted matches s t).0 (step kind sorted matches s t).1 v'
        w'

  pub new_search-SearchFit : SearchFit (new_search lowest)
  new_search-SearchFit = record { mode = refl; found = inl refl }

  -- What is known where something was found.
  pub found-IsFit :
      (s : Search) (i : ℕ)
      → SearchFit s
      → s.matched_regex ≡ some i
      → (s.matching_sorted_index < length sorted)
        × (element sorted s.matching_sorted_index ≡ i)
        × (matches i ≡ true)
        × ((not lowest || (is_set kind || (is_array kind && i == 0))) ≡ true)
  found-IsFit s i v e = elim v.found [
    | inl missing ↦ absurd (ground (arith, e, missing))
    | inr (k, f, g, w) ↦
        let same : element sorted k ≡ i = some-injective _ _ (sym f ∙ e) in
        (rw g w.within, rw g same, rw (← same) w.matching, rw (← same) w.allowed)
  ]
