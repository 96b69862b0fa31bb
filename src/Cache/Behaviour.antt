-- ===== src/Cache/Behaviour.antt =====
-- What one operation of the cache means for later lookups.
use regexkit.Base.{
  Bool-cases, sym, ◌∙◌, false, ◌&&◌, arith, refl, ap, inr, inl, Option-cases, ◌==◌, none,
  if◌then◌else◌, some, Option, ◌≡◌, true, Bool, ℕ,
}
use regexkit.Cache.Interface.{MapTable}
use regexkit.Cache.{Cache, get_from, lookup, add, remove_object, counted, insert_into, remove_from}

choose : {A : Type 0} (x y : A) (p q : Bool) → p ≡ true → q ≡ true → (if p && q then x else y) ≡ x
choose x y p q e f = rw (e, f)

module _ {O : Type 0} (M : MapTable O) where
  -- The object under a hash, whatever the switches say.
  abbrev pub contents : Cache M → ℕ → Option O
  contents c h = get_from M c.table h

  -- The first object under a hash stays.
  abbrev pub first_of : Option O → O → O
  first_of none o = o
  first_of (some old) o = old

  -- The object under a hash once one is added: with the garbage collector on it is replaced.
  abbrev pub kept_of : Option O → O → O
  kept_of before o = if M.garbage_collected then o else first_of before o

  -- A cache with a map table and its switches on.
  pub record IsOn (c : Cache M) : Type 0 where
    pub table : M.Table
    pub made : c.table ≡ some table
    pub enabled : c.is_enabled ≡ true
    pub adding : c.adding_is_enabled ≡ true
    pub looking : c.lookup_is_enabled ≡ true

  pub counted-result : (c : Cache M) (r : Option O) → (counted M c r).1 ≡ r
  unfolding counted
  counted-result c none = refl
  counted-result c (some o) = refl

  counted-table : (c : Cache M) (r : Option O) → (counted M c r).0.table ≡ c.table
  unfolding counted
  counted-table c none = refl
  counted-table c (some o) = refl

  pub lookup-contents : (c : Cache M) (h : ℕ) → IsOn c → (lookup M true c h).1 ≡ contents c h
  unfolding lookup
  lookup-contents c h v =
      counted-result c (if c.is_enabled && c.lookup_is_enabled then get_from M c.table h else none)
      ∙ rw (v.enabled, v.looking)

  pub contents-lookup :
      (locked : Bool) (c : Cache M) (h j : ℕ) → contents (lookup M locked c h).0 j ≡ contents c j
  unfolding lookup
  contents-lookup locked c h j =
      ap (λ t. get_from M t j)
        (counted-table c
          (if locked && (c.is_enabled && c.lookup_is_enabled) then get_from M c.table h else none))

  pub insert_into-get :
      (c : Cache M) (t : M.Table) (o : O) (h j : ℕ)
      → c.table ≡ some t
      → contents (insert_into M c o h (some t)).0 j
        ≡ (if h == j then some (kept_of (M.get t h) o) else M.get t j)
  unfolding insert_into
  insert_into-get c t o h j e = elim (Bool-cases M.garbage_collected) [
    | inl collected ↦ rw (collected, insert_into) (M.get-set_object t h j o)
    | inr manual ↦ elim (Option-cases (M.get t h)) [
      | inl absent ↦ rw (manual, absent, insert_into) (M.get-insert_absent t h j o absent)
      | inr (old, present) ↦
          rw (manual, present, insert_into)
            (ground (arith, M.get-insert_present t h j o old present, present))
    ]
  ]

  insert_into-IsOn :
      (c : Cache M) (t : M.Table) (o : O) (h : ℕ)
      → IsOn c
      → c.table ≡ some t
      → IsOn (insert_into M c o h (some t)).0
  unfolding insert_into
  insert_into-IsOn c t o h v e = elim (Bool-cases M.garbage_collected) [
    | inl collected ↦
        rw (collected, insert_into)
          (record {
            table = _;
            made = refl;
            enabled = v.enabled;
            adding = v.adding;
            looking = v.looking;
          })
    | inr manual ↦ elim (Option-cases (M.get t h)) [
      | inl absent ↦
          rw (manual, absent, insert_into)
            (record {
              table = _;
              made = refl;
              enabled = v.enabled;
              adding = v.adding;
              looking = v.looking;
            })
      | inr (old, present) ↦
          rw (manual, present, insert_into)
            (record {
              table = _;
              made = refl;
              enabled = v.enabled;
              adding = v.adding;
              looking = v.looking;
            })
    ]
  ]

  remove_from-IsOn :
      (c : Cache M) (t : M.Table) (h : ℕ) → IsOn c → IsOn (remove_from M c h (some t)).0
  unfolding remove_from
  remove_from-IsOn c t h v = elim (Option-cases (M.get t h)) [
    | inl absent ↦ rw (absent, remove_from) v
    | inr (old, present) ↦
        rw (present, remove_from)
          (record {
            table = _;
            made = refl;
            enabled = v.enabled;
            adding = v.adding;
            looking = v.looking;
          })
  ]

  pub remove_from-get :
      (c : Cache M) (t : M.Table) (h j : ℕ)
      → c.table ≡ some t
      → (contents (remove_from M c h (some t)).0 j ≡ (if h == j then none else M.get t j))
        × ((remove_from M c h (some t)).1 ≡ M.get t h)
  unfolding remove_from
  remove_from-get c t h j e = elim (Option-cases (M.get t h)) [
    | inl absent ↦ rw (absent, remove_from) (ground (arith, absent, e), refl)
    | inr (old, present) ↦ rw (present, remove_from) (M.get-remove t h j, refl)
  ]

  pub add-insert_into :
      (c : Cache M) (o : O) (h : ℕ) (v : IsOn c)
      → add M true c (some o) h ≡ insert_into M c o h (some v.table)
  unfolding add
  add-insert_into c o h v =
      choose (insert_into M c o h c.table) (c, false) c.adding_is_enabled c.is_enabled v.adding
        v.enabled
      ∙ ap (insert_into M c o h) v.made

  remove_object-remove_from :
      (c : Cache M) (h : ℕ) (v : IsOn c)
      → remove_object M true c h ≡ remove_from M c h (some v.table)
  unfolding remove_object
  remove_object-remove_from c h v = ap (remove_from M c h) v.made

  -- An object that is added to a cache that is on is found under its hash, unless another one was
  -- there first, which stays without the garbage collector; under other hashes nothing changes.
  pub lookup-add :
      (c : Cache M) (o : O) (h j : ℕ)
      → IsOn c
      → (lookup M true (add M true c (some o) h).0 j).1
        ≡ (if h == j then some (kept_of (lookup M true c h).1 o) else (lookup M true c j).1)
  lookup-add c o h j v =
      let valid = insert_into-IsOn c v.table o h v v.made in
      rw
        (
          lookup-contents c h v,
          lookup-contents c j v,
          add-insert_into c o h v,
          lookup-contents (insert_into M c o h (some v.table)).0 j valid,
        )
        (insert_into-get c v.table o h j v.made
          ∙ ap (λ t. if h == j then some (kept_of (get_from M t h) o) else get_from M t j)
              (sym v.made))

  -- A removed object is found no more, and the call hands out what a lookup would have; under other
  -- hashes nothing changes.
  pub lookup-remove_object :
      (c : Cache M) (h j : ℕ)
      → IsOn c
      → ((lookup M true (remove_object M true c h).0 j).1
          ≡ (if h == j then none else (lookup M true c j).1))
        × ((remove_object M true c h).1 ≡ (lookup M true c h).1)
  lookup-remove_object c h j v =
      let valid = remove_from-IsOn c v.table h v in
      let got = remove_from-get c v.table h j v.made in
      rw
        (
          lookup-contents c h v,
          lookup-contents c j v,
          remove_object-remove_from c h v,
          lookup-contents (remove_from M c h (some v.table)).0 j valid,
        )
        (
          got.0 ∙ ap (λ t. if h == j then none else get_from M t j) (sym v.made),
          got.1 ∙ ap (λ t. get_from M t h) (sym v.made),
        )
