-- ===== src/Cache/Interface.antt =====
-- The map table of Foundation that Source/RKCache.m calls, with what its documentation says of
-- `NSCreateMapTable`, `NSMapGet`, `NSMapInsertIfAbsent`, `NSMapRemove` and `NSCountMapTable` for
-- integer keys, and of `setObject:forKey:` for the table of a program with the garbage collector on.
use regexkit.Base.{ℕ, Bool, ◌≡◌, ◌==◌, if◌then◌else◌, Option, none, some}

-- `get t h` is `none` for `NULL`. `garbage_collected` is `RKRegexGarbageCollect == 1`.
pub record MapTable (O : Type 0) : Type 1 where
  pub Table : Type 0
  pub create : Table
  pub get : Table → ℕ → Option O
  pub garbage_collected : Bool
  pub set_object : Table → ℕ → O → Table
  pub insert_if_absent : Table → ℕ → O → Table
  pub remove : Table → ℕ → Table
  pub count : Table → ℕ
  pub get-create : (h : ℕ) → get create h ≡ none
  pub get-set_object :
      (t : Table) (h j : ℕ) (o : O)
      → get (set_object t h o) j ≡ (if h == j then some o else get t j)
  pub get-insert_absent :
      (t : Table) (h j : ℕ) (o : O)
      → get t h ≡ none
      → get (insert_if_absent t h o) j ≡ (if h == j then some o else get t j)
  pub get-insert_present :
      (t : Table) (h j : ℕ) (o old : O)
      → get t h ≡ some old
      → get (insert_if_absent t h o) j ≡ get t j
  pub get-remove : (t : Table) (h j : ℕ) → get (remove t h) j ≡ (if h == j then none else get t j)
