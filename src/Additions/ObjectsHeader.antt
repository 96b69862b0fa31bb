-- ===== src/Additions/ObjectsHeader.antt =====
-- Source/Headers/RegexKit/NSObject.h: the additions to `NSObject`, with what the header documents of
-- them, where one thread searches.
use regexkit.Base.{
  if◌then◌else◌, ℕ, ◌≡◌, Bool, true, false, ◌||◌, Option, none, some, List, [], ◌∷◌, get_elem?,
  Outcome, ok, ◌>>=◌,
}
use regexkit.Foundation.{StringBuffer}
use regexkit.Additions.{RegexArgument}
use regexkit.Sorted.Making.{Made, Library, pcre_library, CollectionArgument, CollectionError}

-- An object: its hash, its description, and whether a regex matches the description.
pub record DescribedObject (R : Type 0) : Type 0 where
  pub hash : ℕ
  pub description : StringBuffer
  pub is_matched : R → Bool

-- What a method returns, with the collection as it leaves it, or with the error that it hands out too.
abbrev pub Answer : Type 0 → Type 0 → Type 0
Answer R A = Outcome (A × Option (Made R))

abbrev pub ErrorAnswer : Type 0 → Type 0 → Type 0
ErrorAnswer R A = Outcome (A × Option CollectionError × Option (Made R))

-- `NSObject (RegexKitAdditions)`
pub record NsObjectAdditions (R : Type 0) : Type 0 where
  pub is_matched_by_regex : DescribedObject R → RegexArgument R → Outcome Bool
  pub is_matched_by_any_regex_in_array : DescribedObject R → CollectionArgument R → Answer R Bool
  pub any_matching_regex_in_array : DescribedObject R → CollectionArgument R → Answer R (Option R)
  pub first_matching_regex_in_array : DescribedObject R → CollectionArgument R → Answer R (Option R)
  pub is_matched_by_any_regex_in_array_error :
      DescribedObject R → CollectionArgument R → Option Library → ℕ → ErrorAnswer R Bool
  pub any_matching_regex_in_array_error :
      DescribedObject R → CollectionArgument R → Option Library → ℕ → ErrorAnswer R (Option R)
  pub first_matching_regex_in_array_error :
      DescribedObject R → CollectionArgument R → Option Library → ℕ → ErrorAnswer R (Option R)
  pub is_matched_by_any_regex_in_set : DescribedObject R → CollectionArgument R → Answer R Bool
  pub any_matching_regex_in_set : DescribedObject R → CollectionArgument R → Answer R (Option R)
  pub is_matched_by_any_regex_in_set_error :
      DescribedObject R → CollectionArgument R → Option Library → ℕ → ErrorAnswer R Bool
  pub any_matching_regex_in_set_error :
      DescribedObject R → CollectionArgument R → Option Library → ℕ → ErrorAnswer R (Option R)

-- Whether any regex of a list matches.
abbrev pub any : {R : Type 0} → (R → Bool) → List R → Bool
any test [] = false
any test (r ∷ rs) = test r || any test rs

-- "one of the regular expressions that matches the receiver, or NULL"
pub data IsAnyMatching {R : Type 0} (test : R → Bool) (rs : List R) : Option R → Type 0 where
  chosen :
      (i : ℕ) (r : R) → get_elem? rs i ≡ some r → test r ≡ true → IsAnyMatching test rs (some r)
  unmatched : any test rs ≡ false → IsAnyMatching test rs none

-- The first regex of a list if it matches, whatever the others do. The header documents "the first
-- regular expression from regexArray that matches the receiver".
abbrev pub first_only : {R : Type 0} → (R → Bool) → List R → Option R
first_only test [] = none
first_only test (r ∷ rs) = if test r then some r else none

-- The call returns a right value, with the error, and leaves some collection.
abbrev pub Returns :
    {R A : Type 0} → ErrorAnswer R A → Option CollectionError → (A → Type 0) → Type 0
Returns {R = R} {A = A} answer error IsRight =
    (a : A) × (left : Option (Made R)) × (answer ≡ ok (a, error, left)) × IsRight a

-- What the methods without the argument `error` make of the answer.
abbrev pub without_error : {R A : Type 0} → ErrorAnswer R A → Answer R A
without_error answer = answer >>= λ r. ok (r.0, r.2)

-- The methods for an array, for the regexes that it compiles to, none where there is an error.
-- `default` are the options RKCompileUTF8 | RKCompileNoUTF8Check.
pub record NsObjectArrayDocumented {R : Type 0} (ops : NsObjectAdditions R) (default : ℕ)
    (on_string : StringBuffer → RegexArgument R → Outcome Bool) (o : DescribedObject R)
    (a : CollectionArgument R) (library : Option Library) (option : ℕ) (rs : List R)
    (error : Option CollectionError) : Type 0 where
  -- "Invokes isMatchedByRegex: on the NSString returned by the receivers description."
  pub is_matched_by_regex :
      (r : RegexArgument R) → ops.is_matched_by_regex o r ≡ on_string o.description r
  -- "Equivalent to isMatchedByAnyRegexInArray:library:options:error: using regexArray with
  -- RKRegexPCRELibrary for library and (RKCompileUTF8 | RKCompileNoUTF8Check) for libraryOptions."
  pub is_matched_equivalent :
      ops.is_matched_by_any_regex_in_array o a
      ≡ without_error (ops.is_matched_by_any_regex_in_array_error o a (some pcre_library) default)
  pub any_equivalent :
      ops.any_matching_regex_in_array o a
      ≡ without_error (ops.any_matching_regex_in_array_error o a (some pcre_library) default)
  pub first_equivalent :
      ops.first_matching_regex_in_array o a
      ≡ without_error (ops.first_matching_regex_in_array_error o a (some pcre_library) default)
  -- "YES if the receiver is matched by any regular expression in regexArray, NO otherwise."
  pub is_matched :
      Returns
        (ops.is_matched_by_any_regex_in_array_error o a library option)
        error
        (λ b. b ≡ any o.is_matched rs)
  -- "one of the regular expressions from regexArray that matches the receiver, or NULL if the
  -- receiver is not matched by any of the regular expressions or an error occurs"
  pub any_matching :
      Returns
        (ops.any_matching_regex_in_array_error o a library option)
        error
        (IsAnyMatching o.is_matched rs)
  -- Not as documented: a match of another regex than the first is lost.
  pub first_matching :
      Returns
        (ops.first_matching_regex_in_array_error o a library option)
        error
        (λ r. r ≡ first_only o.is_matched rs)

-- The methods for a set.
pub record NsObjectSetDocumented {R : Type 0} (ops : NsObjectAdditions R) (default : ℕ)
    (o : DescribedObject R) (a : CollectionArgument R) (library : Option Library) (option : ℕ)
    (rs : List R) (error : Option CollectionError) : Type 0 where
  pub is_matched_equivalent :
      ops.is_matched_by_any_regex_in_set o a
      ≡ without_error (ops.is_matched_by_any_regex_in_set_error o a (some pcre_library) default)
  pub any_equivalent :
      ops.any_matching_regex_in_set o a
      ≡ without_error (ops.any_matching_regex_in_set_error o a (some pcre_library) default)
  -- "YES if the receiver is matched by any regular expression in regexSet, NO otherwise."
  pub is_matched :
      Returns
        (ops.is_matched_by_any_regex_in_set_error o a library option)
        error
        (λ b. b ≡ any o.is_matched rs)
  -- "one of the regular expressions from regexSet that matches the receiver"
  pub any_matching :
      Returns
        (ops.any_matching_regex_in_set_error o a library option)
        error
        (IsAnyMatching o.is_matched rs)
