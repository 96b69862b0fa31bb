-- ===== src/Tests/InterfaceRuns.antt =====
-- The documented interfaces of the collections at small inputs. The matcher stands for a regex that
-- matches the numbers above 5.
use regexkit.Base.{
  sym, ap, ◌∙◌, inr, inl, Bool-cases, ℕ, ◌≡◌, ◌==◌, refl, arith, ltb, Bool, true, false, not, ◌&&◌,
  ◌||◌, ==_iff, if◌then◌else◌, Option, some, none, List, [], ◌∷◌, ok,
}
use regexkit.Foundation.{make_range}
use regexkit.Collections.ArrayActions.Scan.{Fits}
use regexkit.Collections.ArrayInterface.{array_methods, array_methods-documented}
use regexkit.Collections.SetActions.{SetOf, has}
use regexkit.Collections.SetInterface.{Respects, mutable_set_methods}
use regexkit.Collections.SetDocumented.{set_methods-documented}
use regexkit.Collections.DictionaryEntries.{select-distinct}
use regexkit.Collections.Matching.{select}
use regexkit.Collections.DictionaryActions.{
  find_entry, are_distinct, object_of_entry, DictionaryOf, keys,
}
use regexkit.Collections.DictionaryInterface.{dictionary_methods}
use regexkit.Collections.DictionaryDocumented.{dictionary_methods-documented}

abbrev above_five : ℕ → Bool
above_five n = ltb 5 n

abbrev numbers : List ℕ
numbers = 1 ∷ 9 ∷ 2 ∷ 8 ∷ 7 ∷ []

numbers-Fits : Fits (make_range 1 3) numbers
numbers-Fits = record { inside = omega arith; small = omega arith }

array_methods-documented_example :
    (array_methods above_five).array_by_matching numbers (some (make_range 1 3)) ≡ ok (9 ∷ 8 ∷ [])
array_methods-documented_example =
    (array_methods-documented above_five numbers [] (some (make_range 1 3)) numbers-Fits
      (omega arith)).0.array-select

-- Lists as sets: an object is taken out everywhere.
without : List ℕ → ℕ → List ℕ
without [] y = []
without (x ∷ xs) y = let rest = without xs y in if x == y then rest else x ∷ rest

has-without : (xs : List ℕ) (x y : ℕ) → has ◌==◌ x (without xs y) ≡ not (x == y) && has ◌==◌ x xs
unfolding has without
has-without [] x y = ground arith
has-without (z ∷ zs) x y = ground (arith, has-without zs x y)

has-cons : (s : List ℕ) (x y : ℕ) → has ◌==◌ x (y ∷ s) ≡ (x == y) || has ◌==◌ x s
unfolding has
has-cons s x y = refl

same_self : (x : ℕ) → (x == x) ≡ true
same_self x = ground arith

abbrev list_sets : SetOf ℕ
list_sets = record {
  Set = List ℕ;
  same = ◌==◌;
  objects = λ s. s;
  member = λ s x. has ◌==◌ x s;
  init_with_objects = λ xs. xs;
  add_object = λ s x. x ∷ s;
  remove_object = without;
  same-refl = same_self;
  member-objects = λ s x. refl;
  member-init = λ xs x. refl;
  member-add = λ s x y. has-cons s x y;
  member-remove = has-without;
}

above_five-Respects : Respects list_sets above_five
above_five-Respects x y e = ground (arith, (==_iff x y).0 e)

set_methods-documented_example :
    has ◌==◌ 9 ((mutable_set_methods list_sets above_five).remove_objects numbers) ≡ false
unfolding has
set_methods-documented_example =
    (set_methods-documented list_sets above_five above_five-Respects).1.remove-member numbers 9

-- Lists of entries as dictionaries: the first entry with a key counts.
abbrev without_key : ℕ → List (ℕ × ℕ) → List (ℕ × ℕ)
without_key k es = select (λ e. not (k == e.0)) es

abbrev dedupe : List (ℕ × ℕ) → List (ℕ × ℕ)
dedupe [] = []
dedupe ((k, v) ∷ es) = (k, v) ∷ without_key k (dedupe es)

==-sym : (j k : ℕ) → (j == k) ≡ true → (k == j) ≡ true
==-sym j k e = ground (arith, e)

==-trans : (i j k : ℕ) → (i == j) ≡ true → (j == k) ≡ true → (i == k) ≡ true
==-trans i j k e f = ground (arith, e, f)

find_entry-without :
    (k : ℕ) (es : List (ℕ × ℕ)) (j : ℕ)
    → find_entry ◌==◌ (without_key k es) j ≡ (if j == k then none else find_entry ◌==◌ es j)
find_entry-without k [] j = elim (Bool-cases (j == k)) [ inl e ↦ rw e refl | inr e ↦ rw e refl ]
find_entry-without k ((l, v) ∷ es) j =
    let rest = find_entry-without k es j in
    elim (Bool-cases (k == l)) [
      | inl gone ↦ elim (Bool-cases (j == l)) [
        | inl e ↦
            let out : (j == k) ≡ true = ground (arith, gone, e) in rw (gone, out) (rw out at rest)
        | inr e ↦
            let out : (j == k) ≡ false = ground (arith, gone, e) in
            rw (gone, out, e) (rw out at rest)
      ]
      | inr stays ↦ elim (Bool-cases (j == l)) [
        | inl e ↦ let out : (j == k) ≡ false = ground (arith, stays, e) in rw (stays, e, out) refl
        | inr e ↦ rw (stays, e) rest
      ]
    ]

find_entry-dedupe :
    (es : List (ℕ × ℕ)) (j : ℕ) → find_entry ◌==◌ (dedupe es) j ≡ find_entry ◌==◌ es j
find_entry-dedupe [] j = refl
find_entry-dedupe ((k, v) ∷ es) j = elim (Bool-cases (j == k)) [
  | inl e ↦ rw e refl
  | inr e ↦
      let out = find_entry-without k (dedupe es) j in rw e ((rw e at out) ∙ find_entry-dedupe es j)
]

dedupe-distinct : (es : List (ℕ × ℕ)) → are_distinct ◌==◌ (dedupe es) ≡ true
dedupe-distinct [] = refl
dedupe-distinct ((k, v) ∷ es) =
    let itself : (k == k) ≡ true = ground arith in
    let out = find_entry-without k (dedupe es) k in
    rw (rw itself at out)
      (select-distinct ◌==◌ ==-sym ==-trans (λ e. not (k == e.0)) (dedupe es) (dedupe-distinct es))

abbrev object_for : List (ℕ × ℕ) → ℕ → Option ℕ
object_for es j = object_of_entry (find_entry ◌==◌ es j)

object_for-cons :
    (k v : ℕ) (es : List (ℕ × ℕ)) (j : ℕ)
    → object_for ((k, v) ∷ es) j ≡ (if j == k then some v else object_for es j)
object_for-cons k v es j = elim (Bool-cases (j == k)) [ inl e ↦ rw e refl | inr e ↦ rw e refl ]

object_for-without :
    (es : List (ℕ × ℕ)) (k j : ℕ)
    → object_for (without_key k es) j ≡ (if j == k then none else object_for es j)
object_for-without es k j =
    ap object_of_entry (find_entry-without k es j)
    ∙ elim (Bool-cases (j == k)) [ inl e ↦ rw e refl | inr e ↦ rw e refl ]

abbrev list_dictionaries : DictionaryOf ℕ ℕ
list_dictionaries = record {
  Dictionary = List (ℕ × ℕ);
  same = ◌==◌;
  entries = dedupe;
  object_for_key = object_for;
  init_with_entries = λ es. es;
  set_object = λ d v k. (k, v) ∷ d;
  remove_object = λ d k. without_key k d;
  same_sym = ==-sym;
  same_trans = ==-trans;
  object_for_key-entries = λ d j. ap object_of_entry (sym (find_entry-dedupe d j));
  entries-distinct = dedupe-distinct;
  object_for_key-init = λ es j d. refl;
  object_for_key-set = λ d v k j. object_for-cons k v d j;
  object_for_key-remove = object_for-without;
}

dictionary_methods-documented_example :
    (dictionary_methods list_dictionaries above_five above_five).keys_for_objects
      ((1, 9) ∷ (2, 3) ∷ (3, 8) ∷ [])
    ≡ keys (1 ∷ 3 ∷ [])
dictionary_methods-documented_example =
    (dictionary_methods-documented list_dictionaries above_five above_five).0.keys-by_object
      ((1, 9) ∷ (2, 3) ∷ (3, 8) ∷ [])
