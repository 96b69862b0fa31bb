-- ===== src/Regex/Choice.antt =====
-- Among the entries that share a name, the loops choose the first whose capture matched.
use regexkit.Base.{
  ℕ, zero, suc, ◌+◌, ◌<◌, ◌≤◌, ◌≡◌, ◌⊎◌, arith, inl, inr, leb, true, false, Bool-cases, ◌==◌,
  ==_iff, Option, some, none, List, length,
}
use regexkit.Foundation.{NsRange}
use regexkit.Regex.Names.{NameEntry}
use regexkit.Regex.CaptureNames.{index_at, has_name, is_matched, walk_down, walk_up}

module _ (table : List NameEntry) (key : List ℕ) (ranges : List NsRange) where
  -- The entry has the name, and its capture matched.
  pub record IsHit (i : ℕ) : Type 0 where
    pub named : has_name table key i ≡ true
    pub matched : is_matched table ranges i ≡ true

  -- The index of the first such entry from `bottom` on and below `top`, or that there is none.
  pub data IsFirst (bottom top : ℕ) : Option ℕ → Type 0 where
    first :
        (j : ℕ)
        → bottom ≤ j
        → j < top
        → IsHit j
        → ((i : ℕ) → bottom ≤ i → i < j → IsHit i → ⊥)
        → IsFirst bottom top (some (index_at table j))
    nothing : ((i : ℕ) → bottom ≤ i → i < top → IsHit i → ⊥) → IsFirst bottom top none

  -- One entry more below.
  pub extend-hit : (x top : ℕ) → x < top → IsHit x → IsFirst x top (some (index_at table x))
  extend-hit x top small h =
      first x (omega arith) small h (λ i low high g. absurd (omega (arith, low, high)))

  pub extend-miss :
      (x top : ℕ) (answer : Option ℕ)
      → (IsHit x → ⊥)
      → IsFirst (suc x) top answer
      → IsFirst x top answer
  extend-miss x top answer miss (first j low high h before) =
      first j (omega (arith, low)) high h (λ i a b g. elim (Bool-cases (i == x)) [
        | inl same ↦ miss (rw (← (==_iff i x).0 same) g)
        | inr other ↦ before i (ground (arith, other, a)) b g
      ])
  extend-miss x top answer miss (nothing none_above) = nothing (λ i a b g.
      elim (Bool-cases (i == x)) [
        | inl same ↦ miss (rw (← (==_iff i x).0 same) g)
        | inr other ↦ none_above i (ground (arith, other, a)) b g
      ])

  pub IsHit-cases :
      (x : ℕ)
      → has_name table key x ≡ true
      → (IsHit x × is_matched table ranges x ≡ true)
        ⊎ ((IsHit x → ⊥) × is_matched table ranges x ≡ false)
  IsHit-cases x named = elim (Bool-cases (is_matched table ranges x)) [
    | inl m ↦ inl (record { named = named; matched = m }, m)
    | inr m ↦ inr ((λ h. absurd (ground (arith, h.matched, m))), m)
  ]

  pub unnamed : (x : ℕ) → has_name table key x ≡ false → IsHit x → ⊥
  unnamed x e h = absurd (ground (arith, h.named, e))

  -- The entries below or above one without the name, on the side away from one that has it, do not
  -- have it either.
  pub record IsRun (x : ℕ) : Type 0 where
    pub down :
        (i j : ℕ) → i ≤ j → j < x → has_name table key j ≡ false → has_name table key i ≡ false
    pub up :
        (i j : ℕ)
        → x < j
        → j ≤ i
        → i < length table
        → has_name table key j ≡ false
        → has_name table key i ≡ false

  below :
      (x top : ℕ) (answer : Option ℕ)
      → ((i : ℕ) → i ≤ x → has_name table key i ≡ false)
      → IsFirst (suc x) top answer
      → IsFirst 0 top answer
  below x top answer empty (first j low high h before) = first j (omega arith) high h (λ i a b g.
      elim (Bool-cases (leb i x)) [
        | inl le ↦ unnamed i (empty i (ground (arith, le))) g
        | inr more ↦ before i (ground (arith, more)) b g
      ])
  below x top answer empty (nothing none_above) = nothing (λ i a b g. elim (Bool-cases (leb i x)) [
    | inl le ↦ unnamed i (empty i (ground (arith, le))) g
    | inr more ↦ none_above i (ground (arith, more)) b g
  ])

  pub walk_down-IsFirst :
      (found x top : ℕ) (answer : Option ℕ)
      → IsRun found
      → x ≤ found
      → x < top
      → IsFirst x top answer
      → IsFirst 0 top (walk_down table key ranges x answer)
  unfolding walk_down
  walk_down-IsFirst found zero top answer run le small v = v
  walk_down-IsFirst found (suc x) top answer run le small v =
      elim (Bool-cases (has_name table key x)) [
        | inr e ↦ rw e (below x top answer (λ i low. run.down i x low (omega arith) e) v)
        | inl e ↦ elim (IsHit-cases x e) [
          | inl (h, m) ↦
              rw (e, m)
                (walk_down-IsFirst found x top _ run (omega arith) (omega arith)
                  (extend-hit x top (omega arith) h))
          | inr (miss, m) ↦
              rw (e, m)
                (walk_down-IsFirst found x top _ run (omega arith) (omega arith)
                  (extend-miss x top answer miss v))
        ]
      ]

  pub walk_up-IsFirst :
      (found x n : ℕ)
      → IsRun found
      → found ≤ x
      → x + suc n ≡ length table
      → IsFirst (suc x) (length table) (walk_up table key ranges x n)
  unfolding walk_up
  walk_up-IsFirst found x zero run le e = nothing (λ i a b g. absurd (omega (arith, a, b, e)))
  walk_up-IsFirst found x (suc n) run le e = elim (Bool-cases (has_name table key (suc x))) [
    | inr f ↦ rw f (nothing (λ i a b. unnamed i (run.up i (suc x) (omega (arith, le)) a b f)))
    | inl f ↦ elim (IsHit-cases (suc x) f) [
      | inl (h, m) ↦ rw (f, m) (extend-hit (suc x) (length table) (omega (arith, e)) h)
      | inr (miss, m) ↦
          rw (f, m)
            (extend-miss (suc x) (length table) _ miss
              (walk_up-IsFirst found (suc x) n run (omega (arith, le)) (omega (arith, e))))
    ]
  ]
