-- ===== src/Cache/Counters.antt =====
-- The counters of hits and misses over a sequence of calls on the cache.
use regexkit.Base.{
  ℕ, sym, refl, ap, Bool-cases, Option-cases, some-injective, Bool, true, false, List, [], ◌∷◌, ◌+◌,
  ◌%◌, arith, inl, inr, ◌≡◌, Option, some, none, ◌&&◌,
}
use regexkit.Foundation.{word}
use regexkit.Cache.Interface.{MapTable}
use regexkit.Cache.{
  Cache, add, clear, counted, insert_into, remove_from, lookup, remove_object, set_enabled,
  set_adding_enabled, set_lookup_enabled, switch_on, init,
}
use regexkit.Cache.History.{
  Call, look, put, take_out, wipe, enable, enable_adding, enable_lookup, after, run,
}

-- The lookups since the last clearing that took place, after `n` of them.
abbrev pub lookups : {O : Type 0} → ℕ → List (Call O) → ℕ
lookups n [] = n
lookups n (look locked h ∷ calls) = lookups (n + 1) calls
lookups n (put locked o h ∷ calls) = lookups n calls
lookups n (take_out locked h ∷ calls) = lookups n calls
lookups n (wipe true true ∷ calls) = lookups 0 calls
lookups n (wipe true false ∷ calls) = lookups n calls
lookups n (wipe false locked ∷ calls) = lookups n calls
lookups n (enable on ∷ calls) = lookups n calls
lookups n (enable_adding on ∷ calls) = lookups n calls
lookups n (enable_lookup on ∷ calls) = lookups n calls

module _ {O : Type 0} (M : MapTable O) where
  Tallied : Cache M → ℕ → Type 0
  Tallied c n = (c.hits + c.misses) % word ≡ n % word

  look-Tallied :
      (c : Cache M) (r : Option O) (n : ℕ) → Tallied c n → Tallied (counted M c r).0 (n + 1)
  unfolding Tallied counted
  look-Tallied c none n t = omega arith
  look-Tallied c (some o) n t = omega arith

  insert_into-Tallied :
      (c : Cache M) (o : O) (h n : ℕ) (t : Option M.Table)
      → Tallied c n
      → Tallied (insert_into M c o h t).0 n
  unfolding Tallied insert_into
  insert_into-Tallied c o h n none v = v
  insert_into-Tallied c o h n (some t) v = elim (Bool-cases M.garbage_collected) [
    | inl collected ↦ rw (collected, insert_into) v
    | inr manual ↦ elim (Option-cases (M.get t h)) [
      | inl absent ↦ rw (manual, absent, insert_into) v
      | inr (old, present) ↦ rw (manual, present, insert_into) v
    ]
  ]

  remove_from-Tallied :
      (c : Cache M) (h n : ℕ) (t : Option M.Table) → Tallied c n → Tallied (remove_from M c h t).0 n
  unfolding Tallied remove_from
  remove_from-Tallied c h n none v = v
  remove_from-Tallied c h n (some t) v = elim (Option-cases (M.get t h)) [
    | inl absent ↦ rw (absent, remove_from) v
    | inr (old, present) ↦ rw (present, remove_from) v
  ]

  add-Tallied :
      (locked : Bool) (c : Cache M) (o : Option O) (h n : ℕ)
      → Tallied c n
      → Tallied (add M locked c o h).0 n
  unfolding add
  add-Tallied locked c none h n v = v
  add-Tallied locked c (some o) h n v =
      elim (Bool-cases (locked && (c.adding_is_enabled && c.is_enabled))) [
        | inl on ↦ rw on (insert_into-Tallied c o h n c.table v)
        | inr off ↦ rw off v
      ]

  run-Tallied :
      (c : Cache M) (calls : List (Call O)) (n : ℕ)
      → Tallied c n
      → Tallied (run M c calls) (lookups n calls)
  unfolding Tallied lookup remove_object clear set_enabled set_adding_enabled set_lookup_enabled
  run-Tallied c [] n v = v
  run-Tallied c (look locked h ∷ calls) n v =
      run-Tallied (after M c (look locked h)) calls (n + 1) (look-Tallied c _ n v)
  run-Tallied c (put locked o h ∷ calls) n v =
      run-Tallied (after M c (put locked o h)) calls n (add-Tallied locked c o h n v)
  run-Tallied c (take_out true h ∷ calls) n v =
      run-Tallied (after M c (take_out true h)) calls n (remove_from-Tallied c h n c.table v)
  run-Tallied c (take_out false h ∷ calls) n v = run-Tallied c calls n v
  run-Tallied c (wipe true true ∷ calls) n v = run-Tallied (after M c (wipe true true)) calls 0 refl
  run-Tallied c (wipe true false ∷ calls) n v = run-Tallied c calls n v
  run-Tallied c (wipe false locked ∷ calls) n v = run-Tallied c calls n v
  run-Tallied c (enable on ∷ calls) n v = run-Tallied (after M c (enable on)) calls n v
  run-Tallied c (enable_adding on ∷ calls) n v =
      run-Tallied (after M c (enable_adding on)) calls n v
  run-Tallied c (enable_lookup on ∷ calls) n v =
      run-Tallied (after M c (enable_lookup on)) calls n v

  init-Tallied :
      (created locked : Bool) (c : Cache M) → init M created locked ≡ some c → Tallied c 0
  unfolding Tallied init switch_on clear
  init-Tallied true true c e = sym (ap (λ x. (x.hits + x.misses) % word) (some-injective _ c e))
  init-Tallied true false c e = absurd (ground (arith, e))
  init-Tallied false locked c e = absurd (ground (arith, e))

  -- The hits and misses of a new cache together are the number of lookups since it was last
  -- cleared, at the width of the counters.
  counters-run :
      (created locked : Bool) (c : Cache M) (calls : List (Call O))
      → init M created locked ≡ some c
      → ((run M c calls).hits + (run M c calls).misses) % word ≡ lookups 0 calls % word
  unfolding Tallied
  counters-run created locked c calls e = run-Tallied c calls 0 (init-Tallied created locked c e)
