-- ===== src/Tests/CacheRuns.antt =====
-- The cache of Source/RKCache.m over a concrete map table: the theorems at small inputs.
use regexkit.Base.{
  ℕ, ◌+◌, ◌-◌, ◌≡◌, ◌==◌, ==_iff, refl, arith, inl, inr, true, false, Bool-cases, if◌then◌else◌,
  Option, some, none, List, [], ◌∷◌,
}
use regexkit.Cache.Interface.{MapTable}
use regexkit.Cache.{Cache, clear, switch_on, counted, insert_into, lookup, add, init}
use regexkit.Cache.History.{Call, Made, look, put, lookup-run}

abbrev old_or : Option ℕ → ℕ → ℕ
old_or none o = o
old_or (some old) o = old

abbrev one_if_absent : Option ℕ → ℕ
one_if_absent none = 1
one_if_absent (some o) = 0

-- The objects by key, with their number.
abbrev Store : Type 0
Store = (ℕ → Option ℕ) × ℕ

abbrev store_insert : Store → ℕ → ℕ → Store
store_insert (f, n) h o =
    ((λ j. if h == j then some (old_or (f h) o) else f j), n + one_if_absent (f h))

abbrev store_remove : Store → ℕ → Store
store_remove (f, n) h = ((λ j. if h == j then none else f j), n + one_if_absent (f h) - 1)

abbrev store_table : MapTable ℕ
store_table = record {
  Table = Store;
  create = ((λ j. none), 0);
  get = λ t h. t.0 h;
  garbage_collected = false;
  set_object = λ t h o. ((λ j. if h == j then some o else t.0 j), t.1);
  insert_if_absent = store_insert;
  remove = store_remove;
  count = λ t. t.1;
  get-create = λ h. refl;
  get-set_object = λ t h j o. refl;
  get-insert_absent = λ t h j o e. rw e refl;
  get-insert_present = λ t h j o old e. elim (Bool-cases (h == j)) [
    | inl same ↦ ground (arith, e, same, (==_iff h j).0 same)
    | inr other ↦ ground (arith, e, other)
  ];
  get-remove = λ t h j. refl;
}

abbrev filled : Cache store_table
filled = record {
  table = some (store_insert ((λ j. none), 0) 7 70);
  is_enabled = true;
  adding_is_enabled = true;
  lookup_is_enabled = true;
  hits = 0;
  misses = 0;
  cleared_count = 0;
}

abbrev fresh : Cache store_table
fresh = record {
  table = some ((λ j. none), 0);
  is_enabled = true;
  adding_is_enabled = true;
  lookup_is_enabled = true;
  hits = 0;
  misses = 0;
  cleared_count = 0;
}

fresh-init : init store_table true true ≡ some fresh
unfolding init clear switch_on
fresh-init = refl

abbrev calls : List (Call ℕ)
calls = look true 5 ∷ put true (some 50) 5 ∷ look true 5 ∷ look false 5 ∷ []

lookup-run_example : Made (put true (some 50) 5) calls
unfolding lookup add counted insert_into
lookup-run_example = lookup-run store_table true true fresh calls true 5 50 fresh-init refl
