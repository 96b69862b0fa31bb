-- ===== src/Regex/SortedRun.antt =====
-- In an ascending table, the entries of a name stand side by side.
use regexkit.Base.{
  ℕ, ◌<◌, ◌≤◌, ◌≡◌, sym, ap, ◌∙◌, arith, inl, inr, true, false, Bool-cases, ◌==◌, ==_iff, List,
  length,
}
use Prim.Native.Nat.{lt, gt}
use regexkit.Foundation.{NsRange}
use regexkit.Regex.Names.{NameEntry, name_at, compare_names}
use regexkit.Regex.NameSearch.{
  IsAscending, lt-compare_names, gt-compare_names, Ordering-cases, compare_names_self,
  compare_names-eq,
}
use regexkit.Regex.CaptureNames.{has_name}
use regexkit.Regex.Choice.{IsRun}

module _ (table : List NameEntry) (key : List ℕ) where
  pub has_name-eq : (i : ℕ) → has_name table key i ≡ true → name_at table i ≡ key
  unfolding has_name
  has_name-eq i h = elim (Ordering-cases (compare_names key (name_at table i))) [
    | inl o ↦ absurd (ground (arith, h, o))
    | inr (inl o) ↦ sym (compare_names-eq key (name_at table i) o)
    | inr (inr o) ↦ absurd (ground (arith, h, o))
  ]

  pub eq-has_name : (i : ℕ) → name_at table i ≡ key → has_name table key i ≡ true
  unfolding has_name
  eq-has_name i e = ground (arith, ap (compare_names key) e ∙ compare_names_self key)

  gt-has_name : (i : ℕ) → compare_names key (name_at table i) ≡ gt → has_name table key i ≡ false
  unfolding has_name
  gt-has_name i o = ground (arith, o)

  pub lt-has_name :
      (i : ℕ) → compare_names key (name_at table i) ≡ lt → has_name table key i ≡ false
  unfolding has_name
  lt-has_name i o = ground (arith, o)

  gt-below :
      (i j : ℕ)
      → IsAscending table
      → i ≤ j
      → j < length table
      → compare_names key (name_at table j) ≡ gt
      → has_name table key i ≡ false
  unfolding IsAscending
  gt-below i j sorted le inside o = elim (Bool-cases (i == j)) [
    | inl same ↦ rw ((==_iff i j).0 same) (gt-has_name j o)
    | inr other ↦ gt-has_name i (
        gt-compare_names key (name_at table i) (name_at table j) o
          (sorted i j (ground (arith, other, le)) inside))
  ]

  pub lt-above :
      (i j : ℕ)
      → IsAscending table
      → j ≤ i
      → i < length table
      → compare_names key (name_at table j) ≡ lt
      → has_name table key i ≡ false
  unfolding IsAscending
  lt-above i j sorted le inside o = elim (Bool-cases (j == i)) [
    | inl same ↦ rw (← (==_iff j i).0 same) (lt-has_name j o)
    | inr other ↦ lt-has_name i (
        lt-compare_names key (name_at table j) (name_at table i) o
          (sorted j i (ground (arith, other, le)) inside))
  ]

  pub ascending-IsRun :
      (ranges : List NsRange) (x : ℕ)
      → IsAscending table
      → x < length table
      → name_at table x ≡ key
      → IsRun table key ranges x
  unfolding has_name
  ascending-IsRun ranges x sorted inside e =
      let here : has_name table key x ≡ true = eq-has_name x e in
      record {
        down = λ i j le low f. elim (Ordering-cases (compare_names key (name_at table j))) [
          | inl o ↦ absurd (ground (arith, here, lt-above x j sorted (omega (arith, low)) inside o))
          | inr (inl o) ↦ absurd (ground (arith, f, o))
          | inr (inr o) ↦ gt-below i j sorted le (omega (arith, low, inside)) o
        ];
        up = λ i j low le high f. elim (Ordering-cases (compare_names key (name_at table j))) [
          | inl o ↦ lt-above i j sorted le high o
          | inr (inl o) ↦ absurd (ground (arith, f, o))
          | inr (inr o) ↦ absurd (
              ground
                (arith, here, gt-below x j sorted (omega (arith, low)) (omega (arith, le, high)) o))
        ];
      }
