-- ===== src/Tests/SortedRuns.antt =====
-- Searches among two regexes of which the second matches.
use regexkit.Base.{
  ℕ, ◌==◌, ◌≡◌, ◌<◌, refl, arith, true, false, Option, none, some, List, [], ◌∷◌, ok,
}
use regexkit.Foundation.{utf8}
use regexkit.Regex.{results}
use regexkit.Additions.{Regexes, RegexArgument, Resources, object, from_string_or_regex_with_error}
use regexkit.Additions.Strings
use regexkit.Additions.Strings.{utf8_options}
use regexkit.Additions.ObjectsHeader.{DescribedObject}
use regexkit.Additions.Objects.{match_object}
use regexkit.Sorted.{step, array_collection, set_collection, Collection, new_search, ended}
use regexkit.Sorted.Threads.{run, all_entering}
use regexkit.Sorted.Matching.{
  match_locked, resort, find, is_missed, note, Sorter, MatchObject, Circumstances, regex_matching,
  first_regex_matching,
}
use regexkit.Sorted.Right.{IsSorting, IsCollection, IsRecorded}
use regexkit.Sorted.Answers.{IsAnswered, regex_matching-answers}
use regexkit.Sorted.Interleaved.{regex_matching-matching, first_regex_matching-hides}
use regexkit.Sorted.Searching.{is_sought}
use regexkit.Sorted.Races.{race, race-unmatched}
use regexkit.Sorted.Making.{
  CollectionError, Made, Means, pcre_library, array_of, made, regex_for,
  sorted_regex_collection_for,
}
use regexkit.Sorted.Fresh.{IsFresh, AreCompiled, indexes-IsWhole, sorted_regex_collection_for-fresh}

abbrev two : List ℕ
two = 0 ∷ 1 ∷ []

-- Regexes are numbers, and 1 matches.
abbrev second : DescribedObject ℕ
second = record {
  hash = 7;
  description = record { units = 1; characters = 97 ∷ []; length = 1; encoding = utf8 };
  is_matched = λ r. r == 1;
}

abbrev seconds : Unit {0} → DescribedObject ℕ
seconds x = second

abbrev keep_order : Sorter
keep_order hits xs = xs

abbrev one_thread : Circumstances
one_thread = record { locked = true; for_writing = true; probe_enabled = false; schedule = none }

abbrev two_threads : Circumstances
two_threads = record {
  locked = true;
  for_writing = true;
  probe_enabled = false;
  schedule = some race;
}

keep_order-IsSorting : IsSorting keep_order
keep_order-IsSorting = record {
  kept = λ hits xs k e. (k, e, refl);
  only = λ hits xs k e. (k, e, refl);
}

abbrev asked : Unit {0} → MatchObject
asked x = match_object two second

abbrev no_error : Option CollectionError
no_error = none

abbrev array_of_two : Made ℕ
array_of_two = made array_collection two

abbrev set_of_two : Made ℕ
set_of_two = made set_collection two

race-unmatched_example :
    ((run array_collection
        (0 ∷ 1 ∷ [])
        (λ i. i == 1)
        race
        (new_search false)
        all_entering).0.matched_regex
      ≡ none)
    × ((run array_collection (0 ∷ 1 ∷ []) (λ i. i == 1) race (new_search false) all_entering).1 0
        ≡ ended)
    × ((run array_collection (0 ∷ 1 ∷ []) (λ i. i == 1) race (new_search false) all_entering).1 1
        ≡ ended)
race-unmatched_example = race-unmatched array_collection (λ i. i == 1) 0 1 (omega arith) refl refl

first_regex_matching-hides_example :
    (c' : Collection) × (first_regex_matching keep_order one_thread
        (match_object two second)
        array_of_two.state
      ≡ ok (none, c'))
    × (c'' : Collection) × (regex_matching keep_order one_thread (match_object two second) false c'
        ≡ ok (none, c''))
first_regex_matching-hides_example =
    first_regex_matching-hides 2 keep_order one_thread one_thread (match_object two second) false
      array_of_two.state keep_order-IsSorting (indexes-IsWhole two) refl refl refl refl

-- The search of two threads in which the second finds its match.
abbrev lucky : Circumstances
lucky = record {
  locked = true;
  for_writing = true;
  probe_enabled = false;
  schedule = some (0 ∷ 0 ∷ 1 ∷ 1 ∷ 1 ∷ 1 ∷ 1 ∷ 0 ∷ 0 ∷ 1 ∷ []);
}

abbrev lucky_answer : Option ℕ × Collection
lucky_answer = match_locked array_of_two.state (match_object two second) false false lucky.schedule

regex_matching-matching_example :
    (1 < 2)
    × ((match_object two second).matches 1 ≡ true)
    × (is_sought array_collection false 1 ≡ true)
unfolding regex_matching match_locked resort find run step is_missed note
regex_matching-matching_example =
    regex_matching-matching 2 keep_order lucky (match_object two second) false array_of_two.state
      lucky_answer.1 1 keep_order-IsSorting (indexes-IsWhole two) refl

abbrev world : Regexes
world = record {
  Regex = ℕ;
  regex_string = λ r. 98 ∷ [];
  compile_option = λ r. utf8_options;
  capture_count = λ r. 1;
  cached = λ s option. none;
  compile = λ s option. none;
  exec = λ r options bytes n start m. (results 1, m);
}

abbrev resources : Resources
resources = record { stack = λ j. 0; no_stack = false; no_memory = false }

abbrev means : Means ℕ
means = record {
  cached = none;
  cached_in_init = none;
  lock_made = true;
  missed_cache_made = true;
  stack = true;
  elements_made = true;
  sorted_made = true;
}

abbrev regexes : List (RegexArgument ℕ)
regexes = object 0 ∷ object 1 ∷ []

means-IsFresh : IsFresh means
means-IsFresh = record {
  cached = refl;
  cached_in_init = refl;
  lock = refl;
  missed_cache = refl;
  stack = refl;
  elements = refl;
  sorted = refl;
}

both-compiled : AreCompiled world pcre_library utf8_options regexes two
unfolding regex_for from_string_or_regex_with_error
both-compiled = (refl, (refl, tt))

sorted_regex_collection_for-fresh_example :
    (sorted_regex_collection_for world means (array_of regexes) (some pcre_library) utf8_options
      ≡ ok (some array_of_two, none))
    × IsCollection 2 array_of_two.state
    × IsRecorded asked 2 array_of_two.state
    × ((x : Unit {0}) → is_missed array_of_two.state (asked x) ≡ (0 == (asked x).hash))
sorted_regex_collection_for-fresh_example =
    sorted_regex_collection_for-fresh world pcre_library utf8_options asked means (array_of regexes)
      two means-IsFresh (omega arith) (omega arith) both-compiled

array-ready : IsCollection 2 array_of_two.state × IsRecorded asked 2 array_of_two.state
array-ready =
    let (made, v, h, taken) =
      sorted_regex_collection_for-fresh world pcre_library utf8_options asked means
        (array_of regexes) two means-IsFresh (omega arith) (omega arith) both-compiled in
    (v, h)

regex_matching-answers_example :
    (r : Option ℕ × Collection) × (regex_matching keep_order one_thread
        (asked tt)
        false
        array_of_two.state
      ≡ ok r)
    × IsAnswered asked 2 tt r
regex_matching-answers_example =
    regex_matching-answers asked 2 keep_order one_thread tt false array_of_two.state
      keep_order-IsSorting array-ready.0 array-ready.1 refl refl refl
