-- ===== src/Sorted.antt =====
-- Source/RKSortedRegexCollection.m: the search of a match for an object among the regexes of a
-- collection, by one thread or by several, and the method `regexMatching:lowestIndexInCollection:`.
-- An element of the collection is its index in it.
pub mod Threads
pub mod Soundness
pub mod Searching
pub mod Alone
pub mod Matching
pub mod Right
pub mod Answers
pub mod First
pub mod Interleaved
pub mod Races
pub mod Making
pub mod Fresh
use regexkit.Base.{
  ℕ, ◌+◌, ◌-◌, ◌%◌, ltb, leb, ◌==◌, Bool, true, false, not, ◌&&◌, ◌||◌, if◌then◌else◌, Option, some,
  none, List, length, get_or, Outcome, ok, raise, internal_inconsistency,
}
use regexkit.Foundation.{word}

-- `RKCollectionType`
pub data CollectionType : Type 0 where
  unknown_collection array_collection set_collection dictionary_collection : CollectionType

abbrev pub is_set : CollectionType → Bool
is_set unknown_collection = false
is_set array_collection = false
is_set set_collection = true
is_set dictionary_collection = false

abbrev pub is_array : CollectionType → Bool
is_array unknown_collection = false
is_array array_collection = true
is_array set_collection = false
is_array dictionary_collection = false

abbrev pub is_none : {A : Type 0} → Option A → Bool
is_none none = true
is_none (some a) = false

-- `RKSortedRegexCollectionThreadMatchState`, which the threads share; `matched_regex` is the element.
pub record Search : Type 0 where
  pub find_lowest_index : Bool
  pub at_sorted_index : ℕ
  pub highest_matching_array_index : ℕ
  pub finished : Bool
  pub matched_regex : Option ℕ
  pub matching_sorted_index : ℕ
  pub matching_collection_index : ℕ

-- As `memset` and the lines behind it leave it.
abbrev pub new_search : Bool → Search
new_search lowest = record {
  find_lowest_index = lowest;
  at_sorted_index = 0;
  highest_matching_array_index = word - 1;
  finished = false;
  matched_regex = none;
  matching_sorted_index = 0;
  matching_collection_index = 0;
}

-- Where a thread is in `threadMatchEntryFunction`: at the `if`, at the atomic increment, at the test of
-- the loop with a sorted index, at the match of that regex, at the swap of `matchedRegex`, in the loop of
-- the swap of
-- `highestMatchingArrayIndex` (its test, the read of its argument, the swap itself), at the last `if`,
-- or behind it.
pub data Thread : Type 0 where
  entering fetching leaving ended : Thread
  checking comparing publishing lowering reading : ℕ → Thread
  swapping : ℕ → ℕ → Thread

-- `RK_SORTED_REGEX_COLLECTION_CACHE_BUCKETS`
abbrev pub cache_buckets : ℕ
cache_buckets = 251

-- The instance variables that a match reads and writes. `sorted` has the elements in the order of
-- `sortedElements`; `hit_count` is by element.
pub record Collection : Type 0 where
  pub collection_type : CollectionType
  pub sorted : List ℕ
  pub hit_count : ℕ → ℕ
  pub resort_required : Bool
  pub missed_object_hash_cache : ℕ → ℕ
  pub cache_hits : ℕ
  pub cache_misses : ℕ

-- `sortedElements[k] - elements`
abbrev pub element : List ℕ → ℕ → ℕ
element sorted k = get_or sorted k 0

module _ (kind : CollectionType) (sorted : List ℕ) (matches : ℕ → Bool) where
  -- The test of the loop.
  abbrev pub goes_on : Search → ℕ → Bool
  goes_on s k =
      not s.finished
      && (is_none s.matched_regex
          && (ltb k (length sorted) && ltb 0 s.highest_matching_array_index))

  -- One access to what the threads share, and where the thread is then. `matches` says whether the
  -- regex of an element matches the object.
  unfoldable pub step : Search → Thread → Search × Thread
  step s entering =
      if not s.finished && (is_none s.matched_regex && ltb s.at_sorted_index (length sorted))
      then (s, fetching)
      else (s, leaving)
  step s fetching =
      (record s { at_sorted_index = s.at_sorted_index + 1 }, checking s.at_sorted_index)
  step s (checking k) =
      if goes_on s k
      then if ltb s.highest_matching_array_index (element sorted k)
        then (s, fetching)
        else (s, comparing k)
      else (s, leaving)
  step s (comparing k) =
      if matches (element sorted k)
      then if not s.find_lowest_index || (is_set kind || (is_array kind && element sorted k == 0))
        then (s, publishing k)
        else (s, lowering k)
      else if leb (length sorted) s.at_sorted_index
      then (record s { finished = true }, leaving)
      else (s, fetching)
  step s (publishing k) =
      if is_none s.matched_regex
      then (
        record s {
          matched_regex = some (element sorted k);
          matching_sorted_index = k;
          matching_collection_index = element sorted k;
          finished = true;
        },
        leaving,
      )
      else (s, leaving)
  step s (lowering k) =
      if ltb (element sorted k) s.highest_matching_array_index
      then (s, reading k)
      else (s, fetching)
  step s (reading k) = (s, swapping k s.highest_matching_array_index)
  step s (swapping k highest) =
      if s.highest_matching_array_index == highest
      then (record s { highest_matching_array_index = element sorted k }, fetching)
      else (s, lowering k)
  step s leaving =
      if (not (is_none s.matched_regex) || leb (length sorted) s.at_sorted_index) && not s.finished
      then (record s { finished = true }, ended)
      else (s, ended)
  step s ended = (s, ended)
