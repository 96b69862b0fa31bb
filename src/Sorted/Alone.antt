-- ===== src/Sorted/Alone.antt =====
-- A thread that searches alone ends, and where it finds nothing there is nothing to find.
use regexkit.Base.{
  ◌==◌, if_either, sym, leb, subst, ℕ, zero, suc, ◌+◌, ◌*◌, ◌<◌, ◌≤◌, ◌≡◌, refl, arith, ltb, Bool,
  true, false, not, ◌&&◌, ◌||◌, none, List, length, if◌then◌else◌,
}
use regexkit.Foundation.{word}
use regexkit.Sorted.{
  CollectionType, is_set, is_array, is_none, Search, new_search, Thread, entering, fetching,
  leaving, ended, checking, comparing, publishing, lowering, reading, swapping, element, step,
}
use regexkit.Sorted.Threads.{run_alone}
use regexkit.Sorted.Searching.{
  is_sought, is_candidate, IsSearching, fetch, pass, lower, none-IsComplete, goes_on-within,
  goes_on-beyond, none_left, some-none,
}

module _ (kind : CollectionType) (sorted : List ℕ) (matches : ℕ → Bool) (lowest : Bool) where
  -- The search has ended, and where nothing is found no element is one to hand out.
  abbrev pub IsComplete : Search × Thread → Type 0
  IsComplete (s, t) =
      (t ≡ ended)
      × (s.matched_regex ≡ none
          → (j : ℕ) → j < length sorted
          → is_candidate kind sorted matches lowest j ≡ false)

  -- It is so after the number of steps, and stays so.
  abbrev pub Completes : ℕ → Search × Thread → Type 0
  Completes n r = (fuel : ℕ) → n ≤ fuel → IsComplete (run_alone kind sorted matches fuel r.0 r.1)

  step-Completes :
      (n : ℕ) (s : Search) (t : Thread)
      → Completes n (step kind sorted matches s t)
      → Completes (suc n) (s, t)
  unfolding run_alone
  step-Completes n s t h zero e = absurd (omega (arith, e))
  step-Completes n s t h (suc fuel) e = h fuel (omega (arith, e))

  more : (n m : ℕ) (r : Search × Thread) → n ≤ m → Completes n r → Completes m r
  more n m r e h fuel f = h fuel (omega (arith, e, f))

  ended-Completes :
      (s : Search)
      → (s.matched_regex ≡ none
          → (j : ℕ) → j < length sorted
          → is_candidate kind sorted matches lowest j ≡ false)
      → Completes 0 (s, ended)
  unfolding run_alone step
  ended-Completes s h zero e = (refl, h)
  ended-Completes s h (suc fuel) e = ended-Completes s h fuel (omega arith)

  leaving-Completes :
      (s : Search)
      → (s.matched_regex ≡ none
          → (j : ℕ) → j < length sorted
          → is_candidate kind sorted matches lowest j ≡ false)
      → Completes 1 (s, leaving)
  unfolding step
  leaving-Completes s h = step-Completes 0 s leaving (
      if_either (Completes 0) _ _ _ (λ g. ended-Completes (record s { finished = true }) h)
        (λ g. ended-Completes s h))

  -- What is left to do with the elements behind `k` takes so many steps.
  abbrev Rest : ℕ → ℕ → Type 0
  Rest n k =
      (s : Search)
      → IsSearching kind sorted matches lowest (suc k) (suc k) s
      → Completes n (s, fetching)

  publishing-Completes :
      (n k : ℕ) (s : Search)
      → IsSearching kind sorted matches lowest k (suc k) s
      → Completes (suc (suc n)) (s, publishing k)
  unfolding step
  publishing-Completes n k s v = step-Completes (suc n) s (publishing k) (
      rw v.empty
        (more 1 (suc n) _ (omega arith) (leaving-Completes _ (λ e. absurd (some-none _ e)))))

  lowering-Completes :
      (n k : ℕ) (s : Search)
      → (is_set kind || is_array kind) ≡ true
      → IsSearching kind sorted matches lowest k (suc k) s
      → is_sought kind lowest (element sorted k) ≡ false
      → Rest n k
      → Completes (suc (suc (suc n))) (s, lowering k)
  unfolding step
  lowering-Completes n k s proper v w rest =
      let unsought : is_candidate kind sorted matches lowest k ≡ false = ground (arith, w) in
      let here = s.highest_matching_array_index in
      let lowered = lower kind sorted matches lowest k (suc k) s proper v w in
      step-Completes (suc (suc n)) s (lowering k) (
        if_either (Completes (suc (suc n))) _ (s, reading k) (s, fetching)
          (λ h. step-Completes (suc n) s (reading k) (
            step-Completes n s (swapping k here) (
              if_either (Completes n) (here == here) _ (s, lowering k)
                (λ g. rest _ (pass kind sorted matches lowest k (suc k) _ lowered unsought))
                (λ g. absurd (ground (arith, g))))))
          (λ h.
            more n (suc (suc n)) _ (omega arith)
              (rest s (pass kind sorted matches lowest k (suc k) s v unsought))))

  missed-Completes :
      (n k : ℕ) (s : Search)
      → IsSearching kind sorted matches lowest k (suc k) s
      → is_candidate kind sorted matches lowest k ≡ false
      → Rest n k
      → Completes (suc (suc n)) (
          if leb (length sorted) s.at_sorted_index
          then (record s { finished = true }, leaving)
          else (s, fetching))
  missed-Completes n k s v w rest =
      if_either (Completes (suc (suc n))) (leb (length sorted) s.at_sorted_index)
        (record s { finished = true }, leaving) (s, fetching)
        (λ g. more 1 (suc (suc n)) _ (omega arith) (
          leaving-Completes (record s { finished = true })
            (λ e.
              none-IsComplete kind sorted matches lowest (suc k) (suc k) s (ground (arith, v.at, g))
                (pass kind sorted matches lowest k (suc k) s v w))))
        (λ g.
          more n (suc (suc n)) _ (omega arith)
            (rest s (pass kind sorted matches lowest k (suc k) s v w)))

  comparing-Completes :
      (n k : ℕ) (s : Search)
      → (is_set kind || is_array kind) ≡ true
      → IsSearching kind sorted matches lowest k (suc k) s
      → Rest n k
      → Completes (suc (suc (suc (suc n)))) (s, comparing k)
  unfolding step
  comparing-Completes n k s proper v rest =
      let N = suc (suc (suc n)) in
      step-Completes N s (comparing k) (
        if_either (Completes N) (matches (element sorted k)) _
          (if leb (length sorted) s.at_sorted_index
            then (record s { finished = true }, leaving)
            else (s, fetching))
          (λ m.
            if_either (Completes N) _ (s, publishing k) (s, lowering k)
              (λ a. more (suc (suc n)) N _ (omega arith) (publishing-Completes n k s v))
              (λ a. lowering-Completes n k s proper v (rw (← v.mode) a) rest))
          (λ m.
            more (suc (suc n)) N _ (omega arith)
              (missed-Completes n k s v (ground (arith, m)) rest)))

  checking-Completes :
      (n k : ℕ) (s : Search)
      → (is_set kind || is_array kind) ≡ true
      → k < length sorted
      → IsSearching kind sorted matches lowest k (suc k) s
      → Rest n k
      → Completes (n + 5) (s, checking k)
  unfolding step
  checking-Completes n k s proper e v rest = more (suc (n + 4)) (n + 5) _ (omega arith) (
      step-Completes (n + 4) s (checking k) (
        rw (goes_on-within kind sorted matches lowest k s e v) (
          if_either (Completes (n + 4)) _ _ _
            (λ h. more n (n + 4) _ (omega arith) (
              rest s (
                pass kind sorted matches lowest k (suc k) s v (v.skipped k e (ground (arith, h))))))
            (λ h.
              more (suc (suc (suc (suc n)))) (n + 4) _ (omega arith)
                (comparing-Completes n k s proper v rest)))))

  checking-beyond :
      (k : ℕ) (s : Search)
      → length sorted ≤ k
      → IsSearching kind sorted matches lowest k (suc k) s
      → Completes 2 (s, checking k)
  unfolding step
  checking-beyond k s e v = step-Completes 1 s (checking k) (
      rw (goes_on-beyond kind sorted matches lowest k s e)
        (leaving-Completes s (λ f. none-IsComplete kind sorted matches lowest k (suc k) s e v)))

  at_place :
      (n k : ℕ) (s : Search)
      → IsSearching kind sorted matches lowest k k s
      → Completes n (record s { at_sorted_index = s.at_sorted_index + 1 }, checking k)
      → Completes n
          (record s { at_sorted_index = s.at_sorted_index + 1 }, checking s.at_sorted_index)
  at_place n k s v h =
      subst (λ a. Completes n (record s { at_sorted_index = s.at_sorted_index + 1 }, checking a))
        (sym v.at) h

  fetching-Completes :
      (m k : ℕ) (s : Search)
      → (is_set kind || is_array kind) ≡ true
      → k + m ≡ length sorted
      → IsSearching kind sorted matches lowest k k s
      → Completes (6 * m + 3) (s, fetching)
  unfolding step
  fetching-Completes zero k s proper e v = step-Completes 2 s fetching (
      at_place 2 k s v
        (checking-beyond k _ (omega (arith, e)) (fetch kind sorted matches lowest k s v)))
  fetching-Completes (suc m) k s proper e v =
      more (suc (6 * m + 3 + 5)) (6 * suc m + 3) _ (omega arith) (
        step-Completes (6 * m + 3 + 5) s fetching (
          at_place (6 * m + 3 + 5) k s v (
            checking-Completes (6 * m + 3) k _ proper (omega (arith, e))
              (fetch kind sorted matches lowest k s v)
              (λ s' v'. fetching-Completes m (suc k) s' proper (omega (arith, e)) v'))))

  nothing_left :
      (s : Search)
      → IsSearching kind sorted matches lowest 0 0 s
      → (not s.finished && (is_none s.matched_regex && ltb s.at_sorted_index (length sorted)))
        ≡ false
      → length sorted ≤ 0
  nothing_left s v h = none_left (length sorted) (rw (v.going, v.empty, v.at) at h)

  entering-Completes :
      (s : Search)
      → (is_set kind || is_array kind) ≡ true
      → IsSearching kind sorted matches lowest 0 0 s
      → Completes (6 * length sorted + 4) (s, entering)
  unfolding step
  entering-Completes s proper v =
      more (suc (6 * length sorted + 3)) (6 * length sorted + 4) _ (omega arith) (
        step-Completes (6 * length sorted + 3) s entering (
          if_either (Completes (6 * length sorted + 3)) _ (s, fetching) (s, leaving)
            (λ h. fetching-Completes (length sorted) 0 s proper (omega arith) v)
            (λ h. more 1 (6 * length sorted + 3) _ (omega arith) (
              leaving-Completes s
                (λ e. none-IsComplete kind sorted matches lowest 0 0 s (nothing_left s v h) v)))))

-- A thread that searches a set or an array alone ends within six steps for an element and four more,
-- and where it finds nothing, no element matches that the search may hand out: any that matches, or
-- where the lowest index of an array is sought, the first alone.
pub run_alone-IsComplete :
    (kind : CollectionType) (sorted : List ℕ) (matches : ℕ → Bool) (lowest : Bool) (fuel : ℕ)
    → (is_set kind || is_array kind) ≡ true
    → ((j : ℕ) → j < length sorted → element sorted j < word)
    → 6 * length sorted + 4 ≤ fuel
    → IsComplete kind sorted matches lowest
        (run_alone kind sorted matches fuel (new_search lowest) entering)
run_alone-IsComplete kind sorted matches lowest fuel proper small enough =
    entering-Completes kind sorted matches lowest (new_search lowest) proper
      (record {
        mode = refl;
        at = refl;
        going = refl;
        empty = refl;
        positive = omega arith;
        skipped = λ j e f. absurd (omega (arith, small j e, f));
        passed = λ j e f. absurd (omega (arith, f));
      })
      fuel enough
