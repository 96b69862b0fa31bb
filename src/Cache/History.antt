-- ===== src/Cache/History.antt =====
-- Sequences of operations on the cache: what a lookup can hand out.
use regexkit.Base.{
  ℕ, sym, Bool-cases, Option-cases, ==_iff, some-injective, ◌==◌, if◌then◌else◌, none, ◌&&◌, Bool,
  true, false, List, [], ◌∷◌, arith, refl, ap, inl, inr, ◌∙◌, ◌≡◌, ◌⊎◌, Option, some, none,
}
use regexkit.Cache.Interface.{MapTable}
use regexkit.Cache.{
  Cache, get_from, lookup, add, remove_object, clear, insert_into, remove_from, set_enabled,
  set_adding_enabled, set_lookup_enabled, switch_on, init,
}
use regexkit.Cache.Behaviour.{
  contents, contents-lookup, insert_into-get, remove_from-get, counted-result,
}

-- A call on the cache, with what the lock and the allocation answer.
pub data Call (O : Type 0) : Type 0 where
  look : Bool → ℕ → Call O
  put : Bool → Option O → ℕ → Call O
  take_out : Bool → ℕ → Call O
  wipe : Bool → Bool → Call O
  enable enable_adding enable_lookup : Bool → Call O

-- `call` was made before the end of the list.
pub data Made {O : Type 0} (call : Call O) : List (Call O) → Type 0 where
  now : (calls : List (Call O)) → Made call (call ∷ calls)
  later : (other : Call O) (calls : List (Call O)) → Made call calls → Made call (other ∷ calls)

module _ {O : Type 0} (M : MapTable O) where
  abbrev pub after : Cache M → Call O → Cache M
  after c (look locked h) = (lookup M locked c h).0
  after c (put locked o h) = (add M locked c o h).0
  after c (take_out locked h) = (remove_object M locked c h).0
  after c (wipe created locked) = (clear M created locked c).0
  after c (enable on) = (set_enabled M on c).0
  after c (enable_adding on) = (set_adding_enabled M on c).0
  after c (enable_lookup on) = (set_lookup_enabled M on c).0

  abbrev pub run : Cache M → List (Call O) → Cache M
  run c [] = c
  run c (call ∷ calls) = run (after c call) calls

  abbrev Kept : Cache M → Cache M → Type 0
  Kept d c = (j : ℕ) (o : O) → contents M d j ≡ some o → contents M c j ≡ some o

  insert_into-contents :
      (c : Cache M) (o p : O) (h j : ℕ) (t : Option M.Table)
      → c.table ≡ t
      → contents M (insert_into M c o h t).0 j ≡ some p
      → (contents M c j ≡ some p) ⊎ ((h ≡ j) × (o ≡ p))
  unfolding insert_into
  insert_into-contents c o p h j none e q = inl q
  insert_into-contents c o p h j (some t) e q =
      let got = sym (insert_into-get M c t o h j e) ∙ q in
      elim (Bool-cases (h == j)) [
        | inr other ↦ inl (ground (arith, e, got, other))
        | inl same ↦ elim (Bool-cases M.garbage_collected) [
          | inl collected ↦ inr ((==_iff h j).0 same, ground (arith, same, collected, got))
          | inr manual ↦ elim (Option-cases (M.get t h)) [
            | inl absent ↦ inr ((==_iff h j).0 same, ground (arith, same, manual, absent, got))
            | inr (old, present) ↦
                inl (ground (arith, e, got, same, manual, present, (==_iff h j).0 same))
          ]
        ]
      ]

  remove_from-contents :
      (c : Cache M) (h : ℕ) (t : Option M.Table) → c.table ≡ t → Kept (remove_from M c h t).0 c
  unfolding remove_from
  remove_from-contents c h none e j o q = q
  remove_from-contents c h (some t) e j o q =
      let got = sym (remove_from-get M c t h j e).0 ∙ q in
      elim (Bool-cases (h == j)) [
        | inl same ↦ ground (arith, got, same)
        | inr other ↦ ground (arith, e, got, other)
      ]

  clear-contents : (created locked : Bool) (c : Cache M) → Kept (clear M created locked c).0 c
  unfolding clear
  clear-contents true true c j o q = absurd (ground (arith, q, M.get-create j))
  clear-contents true false c j o q = q
  clear-contents false locked c j o q = q

  add-contents :
      (locked : Bool) (c : Cache M) (o p : O) (h j : ℕ)
      → contents M (add M locked c (some o) h).0 j ≡ some p
      → (contents M c j ≡ some p) ⊎ (put locked (some o) h ≡ put true (some p) j)
  unfolding add
  add-contents false c o p h j q = inl q
  add-contents true c o p h j q = elim (Bool-cases (c.adding_is_enabled && c.is_enabled)) [
    | inr off ↦ inl (
        ap (λ b. get_from M (if b then insert_into M c o h c.table else (c, false)).0.table j)
          (sym off)
        ∙ q)
    | inl on ↦
        elim (insert_into-contents c o p h j c.table refl (
          ap (λ b. get_from M (if b then insert_into M c o h c.table else (c, false)).0.table j)
            (sym on)
          ∙ q)) [ inl old ↦ inl old | inr (e, f) ↦ inr (rw (e, f)) ]
  ]

  after-contents :
      (c : Cache M) (call : Call O) (j : ℕ) (o : O)
      → contents M (after c call) j ≡ some o
      → (contents M c j ≡ some o) ⊎ (call ≡ put true (some o) j)
  unfolding add remove_object set_enabled set_adding_enabled set_lookup_enabled
  after-contents c (look locked h) j o q = inl (sym (contents-lookup M locked c h j) ∙ q)
  after-contents c (put locked none h) j o q = inl q
  after-contents c (put locked (some p) h) j o q = add-contents locked c p o h j q
  after-contents c (take_out false h) j o q = inl q
  after-contents c (take_out true h) j o q = inl (remove_from-contents c h c.table refl j o q)
  after-contents c (wipe created locked) j o q = inl (clear-contents created locked c j o q)
  after-contents c (enable on) j o q = inl q
  after-contents c (enable_adding on) j o q = inl q
  after-contents c (enable_lookup on) j o q = inl q

  run-contents :
      (c : Cache M) (calls : List (Call O)) (j : ℕ) (o : O)
      → contents M (run c calls) j ≡ some o
      → (contents M c j ≡ some o) ⊎ Made (put true (some o) j) calls
  run-contents c [] j o q = inl q
  run-contents c (call ∷ calls) j o q = elim (run-contents (after c call) calls j o q) [
    | inr made ↦ inr (later call calls made)
    | inl before ↦ elim (after-contents c call j o before) [
      | inl kept ↦ inl kept
      | inr same ↦ inr (rw same (now calls))
    ]
  ]

  init-contents :
      (created locked : Bool) (c : Cache M) (j : ℕ)
      → init M created locked ≡ some c
      → contents M c j ≡ none
  unfolding init switch_on clear
  init-contents true true c j e =
      sym (ap (λ x. contents M x j) (some-injective _ c e)) ∙ M.get-create j
  init-contents true false c j e = absurd (ground (arith, e))
  init-contents false locked c j e = absurd (ground (arith, e))

  lookup-found :
      (locked : Bool) (c : Cache M) (j : ℕ) (o : O)
      → (lookup M locked c j).1 ≡ some o
      → contents M c j ≡ some o
  unfolding lookup
  lookup-found locked c j o q =
      let on = locked && (c.is_enabled && c.lookup_is_enabled) in
      let got = sym (counted-result M c (if on then get_from M c.table j else none)) ∙ q in
      elim (Bool-cases on) [
        | inl held ↦ ap (λ b. if b then get_from M c.table j else none) (sym held) ∙ got
        | inr off ↦
            absurd
              (ground (arith, ap (λ b. if b then get_from M c.table j else none) (sym off) ∙ got))
      ]

  -- Whatever is called on a new cache, an object that a lookup hands out was put in under the same
  -- hash before.
  pub lookup-run :
      (created locked : Bool) (c : Cache M) (calls : List (Call O)) (held : Bool) (j : ℕ) (o : O)
      → init M created locked ≡ some c
      → (lookup M held (run c calls) j).1 ≡ some o
      → Made (put true (some o) j) calls
  lookup-run created locked c calls held j o e q =
      elim (run-contents c calls j o (lookup-found held (run c calls) j o q)) [
        | inr made ↦ made
        | inl before ↦ absurd (ground (arith, before, init-contents created locked c j e))
      ]
