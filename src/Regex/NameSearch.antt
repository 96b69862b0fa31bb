-- ===== src/Regex/NameSearch.antt =====
-- The search of a capture name finds every name of a sorted table.
use Prim.Native.Nat.{Ordering, lt, eq, gt}
use regexkit.Base.{
  ==_iff, ltb→lt, ℕ, zero, suc, ◌+◌, ◌/◌, ◌<◌, ◌≤◌, ◌≡◌, ◌≢◌, ◌⊎◌, refl, sym, ap, ◌∙◌, ltb, ◌==◌,
  Bool-cases, Option, some, none, List, [], ◌∷◌, length, Outcome, ok, arith, inl, inr,
}
use regexkit.Regex.Names.{NameEntry, name_at, compare_names, search_names, find_name}

pub Ordering-cases : (o : Ordering) → (o ≡ lt) ⊎ (o ≡ eq) ⊎ (o ≡ gt)
Ordering-cases lt = inl refl
Ordering-cases eq = inr (inl refl)
Ordering-cases gt = inr (inr refl)

pub compare_names_self : (a : List ℕ) → compare_names a a ≡ eq
unfolding compare_names
compare_names_self [] = refl
compare_names_self (x ∷ xs) = ground (arith, compare_names_self xs)

pub compare_names-eq : (a b : List ℕ) → compare_names a b ≡ eq → a ≡ b
unfolding compare_names
compare_names-eq [] [] e = refl
compare_names-eq [] (y ∷ b) e = absurd (ground (arith, e))
compare_names-eq (x ∷ a) [] e = absurd (ground (arith, e))
compare_names-eq (x ∷ a) (y ∷ b) e = ground (arith, e, compare_names-eq a b)

-- What is before a name is before every later one.
pub lt-compare_names :
    (key a b : List ℕ)
    → compare_names key a ≡ lt
    → compare_names a b ≢ gt
    → compare_names key b ≡ lt
unfolding compare_names
lt-compare_names [] [] b e f = absurd (ground (arith, e))
lt-compare_names [] (x ∷ a) [] e f = absurd (f refl)
lt-compare_names [] (x ∷ a) (y ∷ b) e f = refl
lt-compare_names (k ∷ key) [] b e f = absurd (ground (arith, e))
lt-compare_names (k ∷ key) (x ∷ a) [] e f = absurd (f refl)
lt-compare_names (k ∷ key) (x ∷ a) (y ∷ b) e f = ground (arith, e, f, lt-compare_names key a b)

pub gt-compare_names :
    (key a b : List ℕ)
    → compare_names key b ≡ gt
    → compare_names a b ≢ gt
    → compare_names key a ≡ gt
unfolding compare_names
gt-compare_names [] [] b e f = absurd (f e)
gt-compare_names [] (x ∷ a) [] e f = absurd (ground (arith, e))
gt-compare_names [] (x ∷ a) (y ∷ b) e f = absurd (ground (arith, e))
gt-compare_names (k ∷ key) [] b e f = refl
gt-compare_names (k ∷ key) (x ∷ a) [] e f = absurd (f refl)
gt-compare_names (k ∷ key) (x ∷ a) (y ∷ b) e f = ground (arith, e, f, gt-compare_names key a b)

-- The names of the table are in ascending order, as pcre keeps them; equal names may repeat.
unfoldable pub IsAscending : List NameEntry → Type 0
IsAscending table =
    (i j : ℕ) → i < j → j < length table → compare_names (name_at table i) (name_at table j) ≢ gt

-- The answer of a search: an entry with the name, or that no entry has it.
pub data IsAnswer (table : List NameEntry) (key : List ℕ) : Option ℕ → Type 0 where
  present : (j : ℕ) → j < length table → name_at table j ≡ key → IsAnswer table key (some j)
  absent : ((i : ℕ) → i < length table → name_at table i ≢ key) → IsAnswer table key none

-- The part of the table that is left to search: the names in front of it are smaller, and those
-- behind it are greater.
record IsBounded (table : List NameEntry) (key : List ℕ) (bottom top : ℕ) : Type 0 where
  ordered : bottom ≤ top
  inside : top ≤ length table
  smaller : (i : ℕ) → i < bottom → compare_names key (name_at table i) ≡ gt
  greater : (i : ℕ) → i < length table → top ≤ i → compare_names key (name_at table i) ≡ lt

unequal : (key name : List ℕ) → compare_names key name ≢ eq → name ≢ key
unequal key name ne e = ne (ap (compare_names key) e ∙ compare_names_self key)

smaller-up :
    (table : List NameEntry) (key : List ℕ) (mid : ℕ)
    → IsAscending table
    → mid < length table
    → compare_names key (name_at table mid) ≡ gt
    → (i : ℕ) → i < mid + 1
    → compare_names key (name_at table i) ≡ gt
unfolding IsAscending
smaller-up table key mid sorted inside e i lt_mid = elim (Bool-cases (i == mid)) [
  | inl same ↦ ap (λ n. compare_names key (name_at table n)) ((==_iff i mid).0 same) ∙ e
  | inr other ↦
      gt-compare_names key (name_at table i) (name_at table mid) e
        (sorted i mid (ground (arith, other, lt_mid)) inside)
]

greater-down :
    (table : List NameEntry) (key : List ℕ) (mid : ℕ)
    → IsAscending table
    → compare_names key (name_at table mid) ≡ lt
    → (i : ℕ) → i < length table
    → mid ≤ i
    → compare_names key (name_at table i) ≡ lt
unfolding IsAscending
greater-down table key mid sorted e i inside le_mid = elim (Bool-cases (i == mid)) [
  | inl same ↦ ap (λ n. compare_names key (name_at table n)) ((==_iff i mid).0 same) ∙ e
  | inr other ↦
      lt-compare_names key (name_at table mid) (name_at table i) e
        (sorted mid i (ground (arith, other, le_mid)) inside)
]

Answers : List NameEntry → List ℕ → Outcome (Option ℕ) → Type 0
Answers table key o = (answer : Option ℕ) × (o ≡ ok answer) × IsAnswer table key answer

empty-Answers :
    (table : List NameEntry) (key : List ℕ) (bottom top : ℕ)
    → top ≤ bottom
    → IsBounded table key bottom top
    → IsAnswer table key none
empty-Answers table key bottom top le v = absent (λ i inside. elim (Bool-cases (ltb i bottom)) [
  | inl low ↦
      unequal key (name_at table i) (λ e. ground (arith, e, v.smaller i (ltb→lt i bottom low)))
  | inr high ↦
      unequal key (name_at table i)
        (λ e. ground (arith, e, v.greater i inside (ground (arith, high, le))))
])

search_names-Answers :
    (fuel : ℕ) (table : List NameEntry) (key : List ℕ) (bottom top : ℕ)
    → IsAscending table
    → IsBounded table key bottom top
    → top < fuel + bottom
    → Answers table key (search_names fuel table key bottom top)
unfolding search_names Answers
search_names-Answers zero table key bottom top sorted v enough =
    absurd (omega (arith, enough, v.ordered))
search_names-Answers (suc fuel) table key bottom top sorted v enough =
    let mid = (top + bottom) / 2 in
    elim (Bool-cases (ltb bottom top)) [
      | inr done ↦ (
        none,
        rw (done, search_names) refl,
        empty-Answers table key bottom top (ground (arith, done)) v,
      )
      | inl going ↦
          let below : mid < top = omega (arith, ltb→lt bottom top going) in
          let above : bottom ≤ mid = omega (arith, ltb→lt bottom top going) in
          elim (Ordering-cases (compare_names key (name_at table mid))) [
            | inl before ↦
                let (a, e, f) =
                  search_names-Answers fuel table key bottom mid sorted
                    (record {
                      ordered = above;
                      inside = omega (arith, below, v.inside);
                      smaller = v.smaller;
                      greater = greater-down table key mid sorted before;
                    })
                    (omega (arith, below, enough)) in
                (a, rw (going, before, search_names) e, f)
            | inr (inl same) ↦ (
              some mid,
              rw (going, same, search_names) refl,
              present mid (omega (arith, below, v.inside))
                  (sym (compare_names-eq key (name_at table mid) same)),
            )
            | inr (inr behind) ↦
                let (a, e, f) =
                  search_names-Answers fuel table key (mid + 1) top sorted
                    (record {
                      ordered = omega (arith, below);
                      inside = v.inside;
                      smaller =
                          smaller-up table key mid sorted (omega (arith, below, v.inside)) behind;
                      greater = v.greater;
                    })
                    (omega (arith, above, enough)) in
                (a, rw (going, behind, search_names) e, f)
          ]
    ]

-- In an ascending table of names that fit an entry, the search for a name ends, and gives an entry
-- that has it, or nothing where no entry has it.
pub find_name-IsAnswer :
    (table : List NameEntry) (entry_size : ℕ) (key : List ℕ)
    → IsAscending table
    → ((i : ℕ) → i < length table → length (name_at table i) ≤ entry_size)
    → (answer : Option ℕ) × (find_name table entry_size key ≡ ok answer) × IsAnswer table key answer
unfolding find_name Answers
find_name-IsAnswer table entry_size key sorted fits = elim (Bool-cases (length table == 0)) [
  | inl empty ↦ (none, rw empty refl, absent (λ i inside e. ground (arith, empty, inside)))
  | inr filled ↦ elim (Bool-cases (ltb entry_size (length key))) [
    | inl long ↦ (
      none,
      rw (filled, long) refl,
      absent (λ i inside e. ground (arith, long, fits i inside, ap length e)),
    )
    | inr short ↦
        let (a, e, f) =
          search_names-Answers (suc (length table)) table key 0 (length table) sorted
            (record {
              ordered = omega arith;
              inside = omega arith;
              smaller = λ i low. absurd (omega (arith, low));
              greater = λ i inside high. absurd (omega (arith, inside, high));
            })
            (omega arith) in
        (a, rw (filled, short) e, f)
  ]
]
