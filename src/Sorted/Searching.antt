-- ===== src/Sorted/Searching.antt =====
-- The state of a search by one thread before it takes the next element.
use regexkit.Base.{
  Bool-cases, inr, inl, ◌⊎◌, ℕ, suc, ◌+◌, ◌<◌, ◌≤◌, ◌≡◌, arith, ltb, ◌==◌, Bool, true, false, not,
  ◌&&◌, ◌||◌, some, none, List, length,
}
use regexkit.Sorted.{CollectionType, is_set, is_array, is_none, Search, element, goes_on}

-- Whether the element is one that the search may hand out.
abbrev pub is_sought : CollectionType → Bool → ℕ → Bool
is_sought kind lowest i = not lowest || (is_set kind || (is_array kind && i == 0))

<-suc-cases : (j k : ℕ) → j < suc k → (j < k) ⊎ (j ≡ k)
<-suc-cases j k e = elim (Bool-cases (ltb j k)) [
  | inl before ↦ inl (ground (arith, before))
  | inr not_before ↦ inr (ground (arith, e, not_before))
]

first_positive :
    (lowest set array : Bool) (i : ℕ)
    → (set || array) ≡ true
    → (not lowest || (set || (array && i == 0))) ≡ false
    → 0 < i
first_positive lowest set array i h g = ground (arith, h, g)

above_unsought :
    (m lowest set array : Bool) (i j : ℕ)
    → i < j
    → (not lowest || (set || (array && i == 0))) ≡ false
    → (m && (not lowest || (set || (array && j == 0)))) ≡ false
above_unsought m lowest set array i j e g = ground (arith, e, g)

within_true :
    (k n h : ℕ)
    → k < n
    → 0 < h
    → (not false && (is_none {A = ℕ} none && (ltb k n && ltb 0 h))) ≡ true
within_true k n h e f = ground (arith, e, f)

beyond_false : (a b : Bool) (k n : ℕ) (d : Bool) → n ≤ k → (a && (b && (ltb k n && d))) ≡ false
beyond_false a b k n d e = ground (arith, e)

pub none_left : (n : ℕ) → (not false && (is_none {A = ℕ} none && ltb 0 n)) ≡ false → n ≤ 0
none_left n h = ground (arith, h)

pub some-none : (i : ℕ) → ¬ (some i ≡ none)
some-none i e = ground (arith, e)

module _ (kind : CollectionType) (sorted : List ℕ) (matches : ℕ → Bool) (lowest : Bool) where
  abbrev pub is_candidate : ℕ → Bool
  is_candidate k = matches (element sorted k) && is_sought kind lowest (element sorted k)

  -- The state of a thread alone that is to take the element at `a`: nothing is found yet, and what it
  -- has passed, the elements before `k`, or will skip, is nothing to hand out.
  pub record IsSearching (k a : ℕ) (s : Search) : Type 0 where
    pub mode : s.find_lowest_index ≡ lowest
    pub at : s.at_sorted_index ≡ a
    pub going : s.finished ≡ false
    pub empty : s.matched_regex ≡ none
    pub positive : 0 < s.highest_matching_array_index
    pub skipped :
        (j : ℕ)
        → j < length sorted
        → s.highest_matching_array_index < element sorted j
        → is_candidate j ≡ false
    pub passed : (j : ℕ) → j < length sorted → j < k → is_candidate j ≡ false

  pub fetch :
      (k : ℕ) (s : Search)
      → IsSearching k k s
      → IsSearching k (suc k) (record s { at_sorted_index = s.at_sorted_index + 1 })
  fetch k s v = record {
    mode = v.mode;
    at = omega (arith, v.at);
    going = v.going;
    empty = v.empty;
    positive = v.positive;
    skipped = v.skipped;
    passed = v.passed;
  }

  pub pass :
      (k a : ℕ) (s : Search) → IsSearching k a s → is_candidate k ≡ false → IsSearching (suc k) a s
  pass k a s v w = record {
    mode = v.mode;
    at = v.at;
    going = v.going;
    empty = v.empty;
    positive = v.positive;
    skipped = v.skipped;
    passed = λ j e f. elim (<-suc-cases j k f) [
      | inl before ↦ v.passed j e before
      | inr same ↦ rw same w
    ];
  }

  -- What is above an index that was found is not sought.
  pub lower :
      (k a : ℕ) (s : Search)
      → (is_set kind || is_array kind) ≡ true
      → IsSearching k a s
      → is_sought kind lowest (element sorted k) ≡ false
      → IsSearching k a (record s { highest_matching_array_index = element sorted k })
  lower k a s proper v w = record {
    mode = v.mode;
    at = v.at;
    going = v.going;
    empty = v.empty;
    positive = first_positive lowest (is_set kind) (is_array kind) (element sorted k) proper w;
    skipped = λ j e f.
        above_unsought (matches (element sorted j)) lowest (is_set kind) (is_array kind)
          (element sorted k) (element sorted j) f w;
    passed = v.passed;
  }

  pub none-IsComplete :
      (k a : ℕ) (s : Search)
      → length sorted ≤ k
      → IsSearching k a s
      → (j : ℕ) → j < length sorted
      → is_candidate j ≡ false
  none-IsComplete k a s e v j f = v.passed j f (omega (arith, e, f))

  pub goes_on-within :
      (k : ℕ) (s : Search)
      → k < length sorted
      → IsSearching k (suc k) s
      → goes_on kind sorted matches s k ≡ true
  goes_on-within k s e v =
      rw (v.going, v.empty)
        (within_true k (length sorted) s.highest_matching_array_index e v.positive)

  pub goes_on-beyond :
      (k : ℕ) (s : Search) → length sorted ≤ k → goes_on kind sorted matches s k ≡ false
  goes_on-beyond k s e =
      beyond_false (not s.finished) (is_none s.matched_regex) k (length sorted)
        (ltb 0 s.highest_matching_array_index) e
