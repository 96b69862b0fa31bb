-- ===== src/Cache.antt =====
-- Source/RKCache.m: a cache of objects by hash, over a map table of Foundation. Each operation
-- takes the result of the lock call that it makes, since the lock may refuse. The retain counts of
-- the objects are not modelled.
pub mod Interface
pub mod Behaviour
pub mod History
pub mod Counters
pub mod Header
pub mod Documented
use regexkit.Base.{if◌then◌else◌, ℕ, ◌+◌, ◌%◌, Bool, true, false, ◌&&◌, Option, none, some}
use regexkit.Foundation.{word}
use Interface.{MapTable}

-- The fields of `RKCache` that the operations read and write. `table` is `none` for `NULL`.
pub record Cache {O : Type 0} (M : MapTable O) : Type 0 where
  pub table : Option M.Table
  pub is_enabled : Bool
  pub adding_is_enabled : Bool
  pub lookup_is_enabled : Bool
  pub hits : ℕ
  pub misses : ℕ
  pub cleared_count : ℕ

module _ {O : Type 0} (M : MapTable O) where
  open M use {Table, create, get, garbage_collected, set_object, insert_if_absent, remove, count}

  abbrev increment : ℕ → ℕ
  increment n = (n + 1) % word

  -- `clearCache`. `created` says whether a new map table could be made.
  unfoldable pub clear : Bool → Bool → Cache M → Cache M × Bool
  clear created locked c =
      if created && locked
      then (
        record c {
          table = some create;
          cleared_count = increment c.cleared_count;
          hits = 0;
          misses = 0;
        },
        true,
      )
      else (c, false)

  -- Memory of zeros, as `alloc` gives it.
  abbrev blank : Cache M
  blank = record {
    table = none;
    is_enabled = false;
    adding_is_enabled = false;
    lookup_is_enabled = false;
    hits = 0;
    misses = 0;
    cleared_count = 0;
  }

  unfoldable pub switch_on : Cache M × Bool → Option (Cache M)
  switch_on (c, false) = none
  switch_on (c, true) = some (record c {
    cleared_count = 0;
    is_enabled = true;
    adding_is_enabled = true;
    lookup_is_enabled = true;
  })

  -- `init`, of an object that is not initialised yet and gets its lock: a cache whose fields are
  -- zero is cleared, and its switches are turned on.
  unfoldable pub init : Bool → Bool → Option (Cache M)
  init created locked = switch_on (clear created locked blank)

  abbrev pub get_from : Option Table → ℕ → Option O
  get_from none h = none
  get_from (some t) h = get t h

  -- The lines behind the unlock of `RKFastCacheLookup`: a hit or a miss is counted.
  unfoldable pub counted : Cache M → Option O → Cache M × Option O
  counted c none = (record c { misses = increment c.misses }, none)
  counted c (some o) = (record c { hits = increment c.hits }, some o)

  -- `RKFastCacheLookup`, and so `objectForHash:description:`.
  unfoldable pub lookup : Bool → Cache M → ℕ → Cache M × Option O
  lookup locked c h =
      counted c
        (if locked && (c.is_enabled && c.lookup_is_enabled) then get_from c.table h else none)

  -- With the garbage collector on, the object replaces the one of its hash. Otherwise it is
  -- `NSMapInsertIfAbsent` into the table, which gives `NULL` where the key was absent.
  unfoldable pub insert_into : Cache M → O → ℕ → Option Table → Cache M × Bool
  insert_into c o h none = (c, false)
  insert_into c o h (some t) =
      let did_insert : Cache M × Bool = elim (get t h) [
        | none ↦ (record c { table = some (insert_if_absent t h o) }, true)
        | some old ↦ (record c { table = some (insert_if_absent t h o) }, false)
      ] in
      if garbage_collected then (record c { table = some (set_object t h o) }, true) else did_insert

  -- `addObjectToCache:withHash:`; a `NULL` object is `none`.
  unfoldable pub add : Bool → Cache M → Option O → ℕ → Cache M × Bool
  add locked c none h = (c, false)
  add locked c (some o) h =
      if locked && (c.adding_is_enabled && c.is_enabled)
      then insert_into c o h c.table
      else (c, false)

  unfoldable pub remove_from : Cache M → ℕ → Option Table → Cache M × Option O
  remove_from c h none = (c, none)
  remove_from c h (some t) = elim (get t h) [
    | none ↦ (c, none)
    | some o ↦ (record c { table = some (remove t h) }, some o)
  ]

  -- `removeObjectWithHash:`. The switches do not matter here.
  unfoldable pub remove_object : Bool → Cache M → ℕ → Cache M × Option O
  remove_object locked c h = if locked then remove_from c h c.table else (c, none)

  abbrev pub count_of : Option Table → ℕ
  count_of none = 0
  count_of (some t) = count t

  -- `cacheCount`
  unfoldable pub cache_count : Bool → Cache M → ℕ
  cache_count locked c = if locked then count_of c.table else 0

  -- `setCacheEnabled:`, `setCacheAddingEnabled:`, `setCacheLookupEnabled:`: the compare and swap
  -- that follows the read succeeds where no other thread writes in between.
  unfoldable pub set_enabled : Bool → Cache M → Cache M × Bool
  set_enabled on c = (record c { is_enabled = on }, true)

  unfoldable pub set_adding_enabled : Bool → Cache M → Cache M × Bool
  set_adding_enabled on c = (record c { adding_is_enabled = on }, true)

  unfoldable pub set_lookup_enabled : Bool → Cache M → Cache M × Bool
  set_lookup_enabled on c = (record c { lookup_is_enabled = on }, true)

  -- `isCacheEnabled`, `isCacheAddingEnabled`, `isCacheLookupEnabled`, `cacheClearedCount`
  unfoldable pub is_cache_enabled : Cache M → Bool
  is_cache_enabled c = c.is_enabled

  unfoldable pub is_cache_adding_enabled : Cache M → Bool
  is_cache_adding_enabled c = c.adding_is_enabled

  unfoldable pub is_cache_lookup_enabled : Cache M → Bool
  is_cache_lookup_enabled c = c.lookup_is_enabled

  unfoldable pub cache_cleared_count : Cache M → ℕ
  cache_cleared_count c = c.cleared_count

  -- `clearCounters`, but for the counters of the lock.
  unfoldable pub clear_counters : Cache M → Cache M
  clear_counters c = record c { cleared_count = 0 }

  -- `addObjectToCache:` and `removeObjectFromCache:`; `hash` is the method of the objects.
  unfoldable pub add_object : (O → ℕ) → Bool → Cache M → O → Cache M × Bool
  add_object hash locked c o = add locked c (some o) (hash o)

  unfoldable pub remove_object_from : (O → ℕ) → Bool → Cache M → O → Cache M × Option O
  remove_object_from hash locked c o = remove_object locked c (hash o)
