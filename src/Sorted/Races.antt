-- ===== src/Sorted/Races.antt =====
-- Two threads that search together.
use regexkit.Base.{refl, arith, ◌-◌, ltb, none, true, false, ◌≡◌, ◌<◌, [], Bool, ◌∷◌}
use regexkit.Foundation.{word}
use regexkit.Sorted.{ℕ, List, CollectionType, new_search, ended, step}
use regexkit.Sorted.Threads.{run, all_entering}

-- The second thread takes the last element before the first thread has compared the one before it.
abbrev pub race : List ℕ
race = 0 ∷ 1 ∷ 0 ∷ 0 ∷ 1 ∷ 0 ∷ 1 ∷ 0 ∷ 1 ∷ []

-- In a collection of two elements of which the second in the sorted order matches the object, two
-- threads can both end with nothing found: the first marks the search as finished as it misses the
-- first element, and the second then leaves without comparing the element it took.
pub race-unmatched :
    (kind : CollectionType) (matches : ℕ → Bool) (a b : ℕ)
    → a < word
    → matches a ≡ false
    → matches b ≡ true
    → ((run kind (a ∷ b ∷ []) matches race (new_search false) all_entering).0.matched_regex ≡ none)
      × ((run kind (a ∷ b ∷ []) matches race (new_search false) all_entering).1 0 ≡ ended)
      × ((run kind (a ∷ b ∷ []) matches race (new_search false) all_entering).1 1 ≡ ended)
unfolding run step
race-unmatched kind matches a b small missed matched =
    let within : ltb (word - 1) a ≡ false = ground (arith, small) in
    (rw (within, missed) refl, rw (within, missed) refl, rw (within, missed) refl)
