-- ===== src/Sorted/Matching.antt =====
-- Source/RKSortedRegexCollection.m: `regexMatching:lowestIndexInCollection:` and the methods on it.
use regexkit.Base.{
  ℕ, ◌+◌, ◌*◌, ◌-◌, ◌%◌, ltb, ◌==◌, Bool, true, false, not, ◌&&◌, if◌then◌else◌, Option, some, none,
  List, length, Outcome, ok, raise, ◌>>=◌, internal_inconsistency,
}
use regexkit.Foundation.{word, sub_word}
use regexkit.Sorted.{is_none, Search, new_search, entering, cache_buckets, Collection, element}
use regexkit.Sorted.Threads.{run, run_alone, all_entering}

-- `mergesort` with `sortRegexCollectionItems`, which looks at the hit counts alone.
abbrev pub Sorter : Type 0
Sorter = (ℕ → ℕ) → List ℕ → List ℕ

-- The object to match: its hash, and whether the regex of an element matches its description.
pub record MatchObject : Type 0 where
  pub hash : ℕ
  pub matches : ℕ → Bool

-- What a call meets: whether the lock is acquired, whether for writing where that is tried, whether
-- the probe for the cache is enabled, and how the threads of the pool interleave, or `none` where the
-- pool does not take the function.
pub record Circumstances : Type 0 where
  pub locked : Bool
  pub for_writing : Bool
  pub probe_enabled : Bool
  pub schedule : Option (List ℕ)

unfoldable pub resort : Sorter → Bool → Collection → Collection
resort mergesort for_writing c =
    if c.resort_required && for_writing
    then record c { sorted = mergesort c.hit_count c.sorted; resort_required = false }
    else c

abbrev pub bucket : MatchObject → ℕ
bucket o = o.hash % cache_buckets

unfoldable pub is_missed : Collection → MatchObject → Bool
is_missed c o = c.missed_object_hash_cache (bucket o) == o.hash

abbrev pub count_hit : Collection → Collection
count_hit c = record c { cache_hits = (c.cache_hits + 1) % word }

-- With the probe enabled the counter is decremented.
abbrev pub count_miss : Bool → Collection → Collection
count_miss probe_enabled c = record c {
  cache_misses = if probe_enabled then sub_word c.cache_misses 1 else (c.cache_misses + 1) % word;
}

-- The search by the threads of the pool, or else in the current thread.
unfoldable pub find : Collection → (ℕ → Bool) → Bool → Option (List ℕ) → Search
find c matches lowest none =
    (run_alone c.collection_type c.sorted matches (6 * length c.sorted + 4) (new_search lowest)
      entering).0
find c matches lowest (some schedule) =
    (run c.collection_type c.sorted matches schedule (new_search lowest) all_entering).0

abbrev pub hits_at : Collection → ℕ → ℕ
hits_at c k = c.hit_count (element c.sorted k)

-- One more hit for the element at the place.
abbrev pub increment : Collection → ℕ → Collection
increment c k = record c {
  hit_count = λ i. if i == element c.sorted k then (c.hit_count i + 1) % word else c.hit_count i;
}

abbrev pub require_resort : Collection → ℕ → Collection
require_resort c k = record c {
  resort_required =
      if ltb 0 k && ltb (hits_at c (k - 1)) (hits_at c k) then true else c.resort_required;
}

abbrev pub remember_miss : Collection → MatchObject → Collection
remember_miss c o = record c {
  missed_object_hash_cache = λ b. if b == bucket o then o.hash else c.missed_object_hash_cache b;
}

-- Behind the search.
unfoldable pub note : Collection → MatchObject → Search → Collection
note c o s =
    if is_none s.matched_regex
    then remember_miss c o
    else require_resort (increment c s.matching_sorted_index) s.matching_sorted_index

-- Behind the lock.
unfoldable pub match_locked :
    Collection → MatchObject → Bool → Bool → Option (List ℕ) → Option ℕ × Collection
match_locked c o lowest probe_enabled schedule =
    let s = find c o.matches lowest schedule in
    if is_missed c o
    then (none, count_hit c)
    else (s.matched_regex, note (count_miss probe_enabled c) o s)

-- `regexMatching:lowestIndexInCollection:`
unfoldable pub regex_matching :
    Sorter → Circumstances → MatchObject → Bool → Collection → Outcome (Option ℕ × Collection)
regex_matching mergesort at o lowest c =
    if at.locked
    then ok (match_locked (resort mergesort at.for_writing c) o lowest at.probe_enabled at.schedule)
    else raise internal_inconsistency

-- `isMatchedByAnyRegex:`
unfoldable pub is_matched_by_any_regex :
    Sorter → Circumstances → MatchObject → Collection → Outcome (Bool × Collection)
is_matched_by_any_regex mergesort at o c =
    regex_matching mergesort at o false c >>= λ r. ok (not (is_none r.0), r.1)

-- `anyRegexMatching:`
unfoldable pub any_regex_matching :
    Sorter → Circumstances → MatchObject → Collection → Outcome (Option ℕ × Collection)
any_regex_matching mergesort at o c = regex_matching mergesort at o false c

-- `firstRegexMatching:`
unfoldable pub first_regex_matching :
    Sorter → Circumstances → MatchObject → Collection → Outcome (Option ℕ × Collection)
first_regex_matching mergesort at o c = regex_matching mergesort at o true c
