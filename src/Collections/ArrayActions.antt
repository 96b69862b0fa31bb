-- ===== src/Collections/ArrayActions.antt =====
-- `RKDoArrayAction` of Source/NSArray.m and the methods that call it. The memory that `alloca` gives
-- is taken to suffice.
pub mod Scan
pub mod Removal
pub mod Search
use regexkit.Base.{
  ℕ, zero, suc, ◌+◌, ◌-◌, ◌%◌, Bool, true, false, not, ◌||◌, Option, some, none, List, [], ◌∷◌,
  ◌++◌, map, if◌then◌else◌, ltb, ◌==◌, length, take, drop, Outcome, ok, raise, range_exception,
  invalid_argument, ◌>>=◌,
}
use regexkit.Foundation.{NsRange, make_range, word, not_found, sub_word}

pub data ArrayAction : Type 0 where
  index_of_first_match array_of_matching_objects count_of_matching_objects : ArrayAction
  add_matches remove_matches index_set_of_matching_objects : ArrayAction

-- The returned object; the indexes of an index set are listed in ascending order.
pub data Returned (A : Type 0) : Type 0 where
  no_object : Returned A
  array : List A → Returned A
  index_set : List ℕ → Returned A

-- What one call leaves: the receiver, the returned object and the value at `UIntegerResult`.
pub record ArrayResult (A : Type 0) : Type 0 where
  pub receiver : List A
  pub object : Returned A
  pub number : ℕ

-- `matchedIndexes` and `matchedObjects`, of `matchedCount` entries each.
pub record Matched (A : Type 0) : Type 0 where
  pub indexes : List ℕ
  pub objects : List A

-- Where the loop ends: at `goto exitNow` with the first index, or behind its last turn.
pub data Scanned (A : Type 0) : Type 0 where
  first_at : ℕ → Scanned A
  matched : Matched A → Scanned A

-- `removeObjectAtIndex:`, which raises beyond the end.
unfoldable pub remove_at : {A : Type 0} → List A → ℕ → Outcome (List A)
remove_at [] i = raise range_exception
remove_at (x ∷ xs) zero = ok xs
remove_at (x ∷ xs) (suc i) = remove_at xs i >>= λ ys. ok (x ∷ ys)

-- `getObjects:range:`, which raises where the range is not within the array.
unfoldable pub get_objects : {A : Type 0} → List A → NsRange → Outcome (List A)
get_objects xs r =
    if ltb (length xs) (r.location + r.length)
    then raise range_exception
    else ok (take r.length (drop r.location xs))

-- The loop of `RKArrayActionRemoveMatches`, from index `x`.
unfoldable pub remove_each : {A : Type 0} → List A → ℕ → List ℕ → Outcome (List A)
remove_each receiver x [] = ok receiver
remove_each receiver x (i ∷ indexes) =
    remove_at receiver (sub_word i x) >>= λ rest. remove_each rest (suc x) indexes

abbrev pub is_index_of_first : ArrayAction → Bool
is_index_of_first index_of_first_match = true
is_index_of_first array_of_matching_objects = false
is_index_of_first count_of_matching_objects = false
is_index_of_first add_matches = false
is_index_of_first remove_matches = false
is_index_of_first index_set_of_matching_objects = false

abbrev pub no_matches : {A : Type 0} → Matched A
no_matches = record { indexes = []; objects = [] }

abbrev pub add_match : {A : Type 0} → Matched A → ℕ → A → Matched A
add_match m i x = record { indexes = m.indexes ++ i ∷ []; objects = m.objects ++ x ∷ [] }

-- The switch behind the loop; `exitNow` hands out `number`, which is 23 where nothing set it.
unfoldable pub perform : {A : Type 0} → ArrayAction → List A → Matched A → Outcome (ArrayResult A)
perform index_of_first_match self m =
    ok (record { receiver = self; object = no_object; number = not_found })
perform array_of_matching_objects self m =
    ok (record { receiver = self; object = array m.objects; number = 23 })
perform count_of_matching_objects self m =
    ok (record { receiver = self; object = no_object; number = length m.objects })
perform add_matches self m =
    ok (record { receiver = self ++ m.objects; object = no_object; number = 23 })
perform remove_matches self m = remove_each self 0 m.indexes >>= λ rest.
    ok (record { receiver = rest; object = no_object; number = 23 })
perform index_set_of_matching_objects self m =
    ok (record { receiver = self; object = index_set m.indexes; number = 23 })

unfoldable pub after_scan :
    {A : Type 0} → ArrayAction → List A → Scanned A → Outcome (ArrayResult A)
after_scan action self (first_at i) =
    ok (record { receiver = self; object = no_object; number = i })
after_scan action self (matched m) = perform action self m

-- A missing range is the whole array.
abbrev pub range_or_all : {A : Type 0} → Option NsRange → List A → NsRange
range_or_all none xs = make_range 0 (length xs)
range_or_all (some r) xs = r

module _ {A : Type 0} (is_matched : A → Bool) where
  -- The loop over the objects, the next of which has the index `i`.
  unfoldable pub scan : Bool → Matched A → ℕ → List A → Scanned A
  scan first m i [] = matched m
  scan first m i (x ∷ xs) = elim (is_matched x) [
    | true ↦ elim first [ true ↦ first_at i | false ↦ scan first (add_match m i x) (suc i) xs ]
    | false ↦ scan first m (suc i) xs
  ]

  unfoldable pub do_array_action :
      ArrayAction → List A → List A → Option NsRange → Outcome (ArrayResult A)
  do_array_action action self against range =
      let r = range_or_all range against in
      if ltb (length against) r.location || ltb (length against) ((r.location + r.length) % word)
      then raise range_exception
      else if r.length == 0
      then perform action self no_matches
      else get_objects against r >>= λ objects.
          after_scan action self (scan (is_index_of_first action) no_matches r.location objects)

  -- The methods, with the range that some of them take. Each is the call that it makes.
  abbrev pub array_of : Returned A → List A
  array_of no_object = []
  array_of (array xs) = xs
  array_of (index_set is) = []

  abbrev pub indexes_of : Returned A → List ℕ
  indexes_of no_object = []
  indexes_of (array xs) = []
  indexes_of (index_set is) = is

  unfoldable pub array_by_matching_objects : List A → Option NsRange → Outcome (List A)
  array_by_matching_objects self range =
      do_array_action array_of_matching_objects self self range >>= λ r. ok (array_of r.object)

  pub contains_object_matching_regex : List A → Option NsRange → Outcome Bool
  contains_object_matching_regex self range =
      do_array_action index_of_first_match self self range >>= λ r. ok (not (r.number == not_found))

  unfoldable pub count_of_objects_matching_regex : List A → Option NsRange → Outcome ℕ
  count_of_objects_matching_regex self range =
      do_array_action count_of_matching_objects self self range >>= λ r. ok r.number

  pub index_of_object_matching_regex : List A → Option NsRange → Outcome ℕ
  index_of_object_matching_regex self range =
      do_array_action index_of_first_match self self range >>= λ r. ok r.number

  unfoldable pub index_set_of_objects_matching_regex : List A → Option NsRange → Outcome (List ℕ)
  index_set_of_objects_matching_regex self range =
      do_array_action index_set_of_matching_objects self self range >>= λ r.
      ok (indexes_of r.object)

  -- `none` is a `NULL` array.
  pub add_objects_from_array : List A → Option (List A) → Outcome (List A)
  add_objects_from_array self none = raise invalid_argument
  add_objects_from_array self (some other) =
      do_array_action add_matches self other none >>= λ r. ok r.receiver

  pub remove_objects_matching_regex : List A → Option NsRange → Outcome (List A)
  remove_objects_matching_regex self range =
      do_array_action remove_matches self self range >>= λ r. ok r.receiver
