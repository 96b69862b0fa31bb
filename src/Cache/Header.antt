-- ===== src/Cache/Header.antt =====
-- Source/Headers/RegexKit/RKCache.h: the methods of `RKCache`, by the groups of the header, with
-- what it documents of them. The documentation is taken to speak of calls that get the lock. What
-- it says of retain counts, and the texts that describe a cache, are left out.
use regexkit.Base.{◌||◌, ℕ, ◌≡◌, ◌==◌, if◌then◌else◌, Bool, true, false, Option, some, none}
use regexkit.Cache.Interface.{MapTable}
use regexkit.Cache.{Cache, count_of}
use regexkit.Cache.Behaviour.{contents, kept_of}

module _ {O : Type 0} (M : MapTable O) (hash : O → ℕ) where
  abbrev State : Type 0
  State = Cache M

  abbrev pub is_none : Option O → Bool
  is_none none = true
  is_none (some o) = false

  -- "Adding, Retrieving, and Removing Objects from the Cache". Each takes whether the lock is got.
  pub record RetrievingMethods : Type 0 where
    pub object_for_hash : Bool → State → ℕ → State × Option O
    pub add_object_to_cache : Bool → State → O → State × Bool
    pub add_object_with_hash : Bool → State → Option O → ℕ → State × Bool
    pub remove_object_from_cache : Bool → State → O → State × Option O
    pub remove_object_with_hash : Bool → State → ℕ → State × Option O

  -- "Returns the object that matches objectHash if it currently exists in the cache, nil otherwise."
  -- The contents stay.
  pub record RetrievalDocumented (ops : RetrievingMethods) (c : State) (h : ℕ) : Type 0 where
    pub found : (ops.object_for_hash true c h).1 ≡ contents M c h
    pub kept : (j : ℕ) → contents M (ops.object_for_hash true c h).0 j ≡ contents M c j

  -- "Returns YES if object was successfully added to the cache, NO otherwise." One of the "Reasons
  -- for returning NO" is that an object with the hash "is already in the cache". The method without
  -- a hash takes that of the object.
  pub record AddingDocumented (ops : RetrievingMethods) (c : State) (o : O) (h : ℕ) : Type 0 where
    -- With the garbage collector on, the object replaces another and the answer is `YES` too.
    pub answered :
        (ops.add_object_with_hash true c (some o) h).1
        ≡ (M.garbage_collected || is_none (contents M c h))
    pub added :
        (j : ℕ)
        → contents M (ops.add_object_with_hash true c (some o) h).0 j
          ≡ (if h == j then some (kept_of M (contents M c h) o) else contents M c j)
    pub by_own_hash :
        ops.add_object_to_cache true c o ≡ ops.add_object_with_hash true c (some o) (hash o)

  -- "Removes the specified object from the cache." "Returns the object in the cache that has the
  -- hash value of objectHash. Returns nil if there is was no object in the cache".
  pub record RemovalDocumented (ops : RetrievingMethods) (c : State) (o : O) (h : ℕ) : Type 0 where
    pub answered : (ops.remove_object_with_hash true c h).1 ≡ contents M c h
    pub removed :
        (j : ℕ)
        → contents M (ops.remove_object_with_hash true c h).0 j
          ≡ (if h == j then none else contents M c j)
    pub by_own_hash :
        ops.remove_object_from_cache true c o ≡ ops.remove_object_with_hash true c (hash o)

  -- "Cache Maintenance" and "Cache Information". `clear_cache` takes whether a new table could be
  -- made, and whether the lock is got.
  pub record MaintenanceMethods : Type 0 where
    pub clear_cache : Bool → Bool → State → State × Bool
    pub is_cache_enabled : State → Bool
    pub set_cache_enabled : Bool → State → State × Bool
    pub cache_count : Bool → State → ℕ

  -- "Removes all objects from the cache." "Returns whether or not the cache is currently enabled."
  -- "Enables or disables the cache." "The number of objects currently in the cache." Another of the
  -- "Reasons for returning NO" when adding: "Caching was not enabled when the add was attempted."
  pub record MaintenanceDocumented (retrieving : RetrievingMethods) (ops : MaintenanceMethods)
      (c : State) (o : O) (h : ℕ) : Type 0 where
    pub cleared : contents M (ops.clear_cache true true c).0 h ≡ none
    -- "Returns YES if the cache was successfully enabled, NO otherwise." Disabling answers `YES` too.
    pub answered : (on : Bool) → (ops.set_cache_enabled on c).1 ≡ true
    pub enabled : (on : Bool) → ops.is_cache_enabled (ops.set_cache_enabled on c).0 ≡ on
    pub kept : (on : Bool) → contents M (ops.set_cache_enabled on c).0 h ≡ contents M c h
    pub disabled :
        retrieving.add_object_with_hash true (ops.set_cache_enabled false c).0 (some o) h
        ≡ ((ops.set_cache_enabled false c).0, false)
    pub counted : ops.cache_count true c ≡ count_of M c.table

  -- `RKCache (CacheDebugging)` and `RKCache (CountersDebugging)`, but for what they ask of the lock.
  pub record DebuggingMethods : Type 0 where
    pub is_cache_adding_enabled : State → Bool
    pub set_cache_adding_enabled : Bool → State → State × Bool
    pub is_cache_lookup_enabled : State → Bool
    pub set_cache_lookup_enabled : Bool → State → State × Bool

  pub record CounterMethods : Type 0 where
    pub clear_counters : State → State
    pub cache_cleared_count : State → ℕ

  -- The names say it: a switch has the state that it was given, and while one is off, nothing is
  -- added, or nothing is found; the counter is zero once it is cleared.
  pub record DebuggingDocumented (retrieving : RetrievingMethods) (ops : DebuggingMethods)
      (counters : CounterMethods) (c : State) (o : O) (h : ℕ) : Type 0 where
    pub adding :
        (on : Bool) → ops.is_cache_adding_enabled (ops.set_cache_adding_enabled on c).0 ≡ on
    pub looking :
        (on : Bool) → ops.is_cache_lookup_enabled (ops.set_cache_lookup_enabled on c).0 ≡ on
    pub not_added :
        retrieving.add_object_with_hash true (ops.set_cache_adding_enabled false c).0 (some o) h
        ≡ ((ops.set_cache_adding_enabled false c).0, false)
    pub not_found :
        (retrieving.object_for_hash true (ops.set_cache_lookup_enabled false c).0 h).1 ≡ none
    pub cleared : counters.cache_cleared_count (counters.clear_counters c) ≡ 0
