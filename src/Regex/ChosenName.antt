-- ===== src/Regex/ChosenName.antt =====
-- The index of a capture name in the ranges of a match is the first that matched.
use regexkit.Base.{
  ℕ, suc, ◌-◌, ◌<◌, ◌≤◌, ◌≡◌, ◌≢◌, refl, sym, ◌∙◌, arith, inl, inr, leb, Bool, true, false, ◌||◌,
  if◌then◌else◌, Bool-cases, Option-cases, Option, some, none, List, length, ok,
}
use regexkit.Foundation.{NsRange}
use regexkit.Regex.Names.{NameEntry, name_at}
use regexkit.Regex.NameSearch.{IsAscending, IsAnswer, present, absent, find_name-IsAnswer}
use regexkit.Regex.CaptureNames.{
  RegexInfo, index_at, has_name, is_matched, walk_down, choose, valid_name, index_answer,
  capture_index_with_error,
}
use regexkit.Regex.SortedRun.{has_name-eq, eq-has_name, ascending-IsRun}
use regexkit.Regex.Choice.{
  IsFirst, first, nothing, walk_down-IsFirst, walk_up-IsFirst, extend-hit, extend-miss, IsHit-cases,
}

module _ (table : List NameEntry) (key : List ℕ) where
  join-IsFirst :
      (ranges : List NsRange) (mid top : ℕ) (answer : Option ℕ)
      → IsFirst table key ranges 0 mid none
      → IsFirst table key ranges mid top answer
      → IsFirst table key ranges 0 top answer
  join-IsFirst ranges mid top answer (nothing empty) (first j low high h before) =
      first j (omega arith) high h (λ i a b g. elim (Bool-cases (leb mid i)) [
        | inl le ↦ before i (ground (arith, le)) b g
        | inr more ↦ empty i a (ground (arith, more)) g
      ])
  join-IsFirst ranges mid top answer (nothing empty) (nothing none_above) = nothing (λ i a b g.
      elim (Bool-cases (leb mid i)) [
        | inl le ↦ none_above i (ground (arith, le)) b g
        | inr more ↦ empty i a (ground (arith, more)) g
      ])

  widen-IsFirst :
      (ranges : List NsRange) (mid top index : ℕ)
      → mid ≤ top
      → IsFirst table key ranges 0 mid (some index)
      → IsFirst table key ranges 0 top (some index)
  widen-IsFirst ranges mid top index le (first j low high h before) =
      first j low (omega (arith, high, le)) h before

  own-IsFirst :
      (ranges : List NsRange) (x : ℕ)
      → has_name table key x ≡ true
      → IsFirst table key ranges x
          (suc x)
          (if is_matched table ranges x then some (index_at table x) else none)
  own-IsFirst ranges x named = elim (IsHit-cases table key ranges x named) [
    | inl (h, m) ↦ rw m (extend-hit table key ranges x (suc x) (omega arith) h)
    | inr (miss, m) ↦ rw m (
        extend-miss table key ranges x (suc x) none miss
          (nothing (λ i a b g. absurd (omega (arith, a, b)))))
  ]

  choose-IsFirst :
      (ranges : List NsRange) (x : ℕ)
      → IsAscending table
      → x < length table
      → name_at table x ≡ key
      → IsFirst table key ranges 0 (length table) (choose table key ranges x)
  unfolding choose
  choose-IsFirst ranges x sorted inside e =
      let run = ascending-IsRun table key ranges x sorted inside e in
      let own = if is_matched table ranges x then some (index_at table x) else none in
      let lowest = walk_down table key ranges x own in
      let v : IsFirst table key ranges 0 (suc x) lowest =
        walk_down-IsFirst table key ranges x x (suc x) own run (omega arith) (omega arith)
          (own-IsFirst ranges x (eq-has_name table key x e)) in
      let w =
        walk_up-IsFirst table key ranges x x (length table - suc x) run (omega arith)
          (omega (arith, inside)) in
      elim (Option-cases lowest) [
        | inl none_below ↦
            rw (none_below, choose)
              (join-IsFirst ranges (suc x) (length table) _ (rw (← none_below) v) w)
        | inr (index, found) ↦
            rw (found, choose)
              (widen-IsFirst ranges (suc x) (length table) index (omega (arith, inside))
                (rw (← found) v))
      ]

  -- Where no other entry has the name.
  single-IsFirst :
      (ranges : List NsRange) (x : ℕ)
      → x < length table
      → name_at table x ≡ key
      → ((i : ℕ) → i < length table → name_at table i ≡ key → i ≡ x)
      → IsFirst table key ranges 0
          (length table)
          (if is_matched table ranges x then some (index_at table x) else none)
  single-IsFirst ranges x inside e alone =
      elim (IsHit-cases table key ranges x (eq-has_name table key x e)) [
        | inl (h, m) ↦ rw m (
            first x (omega arith) inside h (λ i a b g. absurd (
              omega
                (arith, b, alone i (omega (arith, b, inside)) (has_name-eq table key i g.named)))))
        | inr (miss, m) ↦
            rw m (nothing (λ i a b g. miss (rw (← alone i b (has_name-eq table key i g.named)) g)))
      ]

-- Names repeat in the table only where an option of the regex lets them.
pub data IsDeclared (r : RegexInfo) : Type 0 where
  may_repeat : (r.jchanged || r.dup_names) ≡ true → IsDeclared r
  unique :
      (r.jchanged || r.dup_names) ≡ false
      → ((i j : ℕ)
          → i < length r.capture_name_table
          → j < length r.capture_name_table
          → name_at r.capture_name_table i ≡ name_at r.capture_name_table j
          → i ≡ j)
      → IsDeclared r

-- The table as pcre makes it.
pub record IsNameTable (r : RegexInfo) : Type 0 where
  pub ascending : IsAscending r.capture_name_table
  pub fitting :
      (i : ℕ)
      → i < length r.capture_name_table
      → length (name_at r.capture_name_table i) ≤ r.capture_name_length
  pub declared : IsDeclared r

-- The answer for a name and the ranges of a match: the index of the first capture of the name that
-- matched, or `NSNotFound` where none did, or an error where no capture has the name.
pub data IsChosen (r : RegexInfo) (key : List ℕ) (ranges : List NsRange)
    : Option ℕ → Bool → Type 0 where
  chosen :
      (x : ℕ) (answer : Option ℕ)
      → x < length r.capture_name_table
      → name_at r.capture_name_table x ≡ key
      → IsFirst r.capture_name_table key ranges 0 (length r.capture_name_table) answer
      → IsChosen r key ranges answer false
  unknown :
      ((i : ℕ) → i < length r.capture_name_table → name_at r.capture_name_table i ≢ key)
      → IsChosen r key ranges none true

pub valid_name-IsFirst :
    (r : RegexInfo) (key : List ℕ) (ranges : List NsRange) (x : ℕ)
    → IsNameTable r
    → IsDeclared r
    → x < length r.capture_name_table
    → name_at r.capture_name_table x ≡ key
    → IsFirst r.capture_name_table key ranges 0
        (length r.capture_name_table)
        (valid_name r key (some ranges) x)
unfolding valid_name
valid_name-IsFirst r key ranges x v (may_repeat d) inside e =
    rw (d, valid_name) (choose-IsFirst r.capture_name_table key ranges x v.ascending inside e)
valid_name-IsFirst r key ranges x v (unique d same) inside e =
    rw (d, valid_name)
      (single-IsFirst r.capture_name_table key ranges x inside e
        (λ i low f. same i x low inside (f ∙ sym e)))

answer-IsChosen :
    (r : RegexInfo) (key : List ℕ) (ranges : List NsRange) (found : Option ℕ)
    → IsNameTable r
    → IsAnswer r.capture_name_table key found
    → (answer : Option ℕ) × (error : Bool) × (index_answer r key (some ranges) found
        ≡ (answer, error))
      × IsChosen r key ranges answer error
unfolding index_answer
answer-IsChosen r key ranges found v (present x inside named) = (
  valid_name r key (some ranges) x,
  false,
  refl,
  chosen x _ inside named (valid_name-IsFirst r key ranges x v v.declared inside named),
)
answer-IsChosen r key ranges found v (absent none_named) = (none, true, refl, unknown none_named)

-- For the table of a regex, whether names repeat in it or not, and the ranges of a match, the
-- function ends without an exception. It answers the index of the first entry of the name whose
-- capture matched, `NSNotFound` where the name is known but no capture of it matched, and an error
-- where the name is unknown.
pub capture_index_with_error-IsChosen :
    (r : RegexInfo) (key : List ℕ) (ranges : List NsRange)
    → IsNameTable r
    → (answer : Option ℕ) × (error : Bool) × (capture_index_with_error r key (some ranges)
        ≡ ok (answer, error))
      × IsChosen r key ranges answer error
unfolding capture_index_with_error
capture_index_with_error-IsChosen r key ranges v =
    let (found, e, a) =
      find_name-IsAnswer r.capture_name_table r.capture_name_length key v.ascending v.fitting in
    let (answer, error, f, g) = answer-IsChosen r key ranges found v a in
    (answer, error, rw (e, f) refl, g)
