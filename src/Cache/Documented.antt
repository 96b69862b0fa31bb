-- ===== src/Cache/Documented.antt =====
-- The methods of Source/RKCache.m do what the header documents of them.
use regexkit.Base.{ℕ}
use regexkit.Cache.Interface.{MapTable}
use regexkit.Cache.{
  Cache, clear, lookup, add, remove_object, cache_count, set_enabled, set_adding_enabled,
  set_lookup_enabled, is_cache_enabled, is_cache_adding_enabled, is_cache_lookup_enabled,
  cache_cleared_count, clear_counters, add_object, remove_object_from,
}
use regexkit.Cache.Header.{RetrievingMethods, MaintenanceMethods, DebuggingMethods, CounterMethods}

module _ {O : Type 0} (M : MapTable O) (hash : O → ℕ) where
  unfoldable pub retrieving_methods : RetrievingMethods M hash
  retrieving_methods = record {
    object_for_hash = lookup M;
    add_object_to_cache = add_object M hash;
    add_object_with_hash = add M;
    remove_object_from_cache = remove_object_from M hash;
    remove_object_with_hash = remove_object M;
  }

  unfoldable pub maintenance_methods : MaintenanceMethods M hash
  maintenance_methods = record {
    clear_cache = clear M;
    is_cache_enabled = is_cache_enabled M;
    set_cache_enabled = set_enabled M;
    cache_count = cache_count M;
  }

  unfoldable pub debugging_methods : DebuggingMethods M hash
  debugging_methods = record {
    is_cache_adding_enabled = is_cache_adding_enabled M;
    set_cache_adding_enabled = set_adding_enabled M;
    is_cache_lookup_enabled = is_cache_lookup_enabled M;
    set_cache_lookup_enabled = set_lookup_enabled M;
  }

  unfoldable pub counter_methods : CounterMethods M hash
  counter_methods = record {
    clear_counters = clear_counters M;
    cache_cleared_count = cache_cleared_count M;
  }
