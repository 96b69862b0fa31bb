-- ===== src/Additions/Objects.antt =====
-- Source/NSObject.m: the additions to `NSObject`.
use regexkit.Base.{
  ℕ, Bool, true, false, not, Option, none, some, List, get_elem?, Outcome, ok, ◌>>=◌,
}
use regexkit.Additions.{Regexes, RegexArgument, Resources}
use regexkit.Additions.Strings.{utf8_options}
use regexkit.Additions.ObjectsHeader.{DescribedObject, Answer, ErrorAnswer, NsObjectAdditions}
use regexkit.Sorted.{is_none}
use regexkit.Sorted.Matching.{Sorter, MatchObject, Circumstances, regex_matching}
use regexkit.Sorted.Making.{
  Made, Means, Library, pcre_library, CollectionArgument, sorted_regex_collection_for,
}
use regexkit.Additions.Strings

-- The regex that a search answers.
abbrev pub regex_at : {R : Type 0} → List R → Option ℕ → Option R
regex_at rs none = none
regex_at rs (some i) = get_elem? rs i

abbrev pub test_at : {R : Type 0} → (R → Bool) → List R → ℕ → Bool
test_at test rs i = elim (get_elem? rs i) [ none ↦ false | some r ↦ test r ]

-- The object as the search for its match among the regexes sees it.
abbrev pub match_object : {R : Type 0} → List R → DescribedObject R → MatchObject
match_object rs o = record { hash = o.hash; matches = test_at o.is_matched rs }

-- `== NULL ? NO : YES`
abbrev pub is_found : {R : Type 0} → ErrorAnswer R (Option R) → ErrorAnswer R Bool
is_found answer = answer >>= λ r. ok (not (is_none r.0), r.1, r.2)

abbrev pub is_found_plain : {R : Type 0} → Answer R (Option R) → Answer R Bool
is_found_plain answer = answer >>= λ r. ok (not (is_none r.0), r.1)

module _ (W : Regexes) (resources : Resources) (mergesort : Sorter) (at : Circumstances)
    (means : Means W.Regex) where
  open W use {Regex}

  -- `regexMatching:lowestIndexInCollection:`, which answers `NULL` where the collection is `NULL`.
  unfoldable pub message :
      Option (Made Regex) → DescribedObject Regex → Bool → Answer Regex (Option Regex)
  message none o lowest = ok (none, none)
  message (some m) o lowest =
      regex_matching mergesort at (match_object m.regexes o) lowest m.state >>= λ r.
      ok (regex_at m.regexes r.0, some (record m { state = r.1 }))

  -- The expression of the methods.
  unfoldable pub matching :
      DescribedObject Regex
      → CollectionArgument Regex
      → Option Library
      → ℕ
      → Bool
      → ErrorAnswer Regex (Option Regex)
  matching o a library option lowest = sorted_regex_collection_for W means a library option >>= λ c.
      message c.0 o lowest >>= λ r. ok (r.0, c.1, r.1)

  abbrev pub by_default :
      DescribedObject Regex → CollectionArgument Regex → Bool → Answer Regex (Option Regex)
  by_default o a lowest =
      matching o a (some pcre_library) utf8_options lowest >>= λ r. ok (r.0, r.2)

  unfoldable pub is_matched_by_regex : DescribedObject Regex → RegexArgument Regex → Outcome Bool
  is_matched_by_regex o r = Strings.is_matched_by_regex W resources o.description r

  unfoldable pub is_matched_by_any_regex_in_array :
      DescribedObject Regex → CollectionArgument Regex → Answer Regex Bool
  is_matched_by_any_regex_in_array o a = is_found_plain (by_default o a false)

  unfoldable pub any_matching_regex_in_array :
      DescribedObject Regex → CollectionArgument Regex → Answer Regex (Option Regex)
  any_matching_regex_in_array o a = by_default o a false

  unfoldable pub first_matching_regex_in_array :
      DescribedObject Regex → CollectionArgument Regex → Answer Regex (Option Regex)
  first_matching_regex_in_array o a = by_default o a true

  unfoldable pub is_matched_by_any_regex_in_array_error :
      DescribedObject Regex → CollectionArgument Regex → Option Library → ℕ → ErrorAnswer Regex Bool
  is_matched_by_any_regex_in_array_error o a library option =
      is_found (matching o a library option false)

  unfoldable pub any_matching_regex_in_array_error :
      DescribedObject Regex
      → CollectionArgument Regex
      → Option Library
      → ℕ
      → ErrorAnswer Regex (Option Regex)
  any_matching_regex_in_array_error o a library option = matching o a library option false

  unfoldable pub first_matching_regex_in_array_error :
      DescribedObject Regex
      → CollectionArgument Regex
      → Option Library
      → ℕ
      → ErrorAnswer Regex (Option Regex)
  first_matching_regex_in_array_error o a library option = matching o a library option true

  unfoldable pub is_matched_by_any_regex_in_set :
      DescribedObject Regex → CollectionArgument Regex → Answer Regex Bool
  is_matched_by_any_regex_in_set o a = is_found_plain (by_default o a false)

  unfoldable pub any_matching_regex_in_set :
      DescribedObject Regex → CollectionArgument Regex → Answer Regex (Option Regex)
  any_matching_regex_in_set o a = by_default o a false

  unfoldable pub is_matched_by_any_regex_in_set_error :
      DescribedObject Regex → CollectionArgument Regex → Option Library → ℕ → ErrorAnswer Regex Bool
  is_matched_by_any_regex_in_set_error o a library option =
      is_found (matching o a library option false)

  unfoldable pub any_matching_regex_in_set_error :
      DescribedObject Regex
      → CollectionArgument Regex
      → Option Library
      → ℕ
      → ErrorAnswer Regex (Option Regex)
  any_matching_regex_in_set_error o a library option = matching o a library option false

  unfoldable pub ns_object_additions : NsObjectAdditions Regex
  ns_object_additions = record {
    is_matched_by_regex = is_matched_by_regex;
    is_matched_by_any_regex_in_array = is_matched_by_any_regex_in_array;
    any_matching_regex_in_array = any_matching_regex_in_array;
    first_matching_regex_in_array = first_matching_regex_in_array;
    is_matched_by_any_regex_in_array_error = is_matched_by_any_regex_in_array_error;
    any_matching_regex_in_array_error = any_matching_regex_in_array_error;
    first_matching_regex_in_array_error = first_matching_regex_in_array_error;
    is_matched_by_any_regex_in_set = is_matched_by_any_regex_in_set;
    any_matching_regex_in_set = any_matching_regex_in_set;
    is_matched_by_any_regex_in_set_error = is_matched_by_any_regex_in_set_error;
    any_matching_regex_in_set_error = any_matching_regex_in_set_error;
  }
