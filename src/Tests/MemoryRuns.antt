-- ===== src/Tests/MemoryRuns.antt =====
-- The memory macros, the stack guard and the macros on ranges at small inputs.
use regexkit.Base.{ℕ, ◌≡◌, ◌↔◌, refl, arith, true, some, none, List, [], ◌∷◌, replicate}
use regexkit.Foundation.{make_range}
use regexkit.Memory.Macros.{Heap, collector_macros}
use regexkit.Memory.Pairing.{collector_macros-Pairs}
use regexkit.StackGuard.{stored, guard_setup, is_set}
use regexkit.StackGuard.Canary.{guard_setup-is_set}
use regexkit.RangeMacros.{range_inside_range}
use regexkit.RangeMacros.Bounds.{Inside, range_inside_range-Inside}

abbrev heap : Heap
heap = record { malloced = 16 ∷ []; autoreleased = []; collected = [] }

collector_macros-Pairs_example :
    (after : Heap) × ((collector_macros 1).free_and_null 32
        ((collector_macros 1).calloc_scanned 8 32 heap).0
      ≡ some (after, 0))
    × (after.malloced ≡ 16 ∷ [])
    × (after.autoreleased ≡ [])
collector_macros-Pairs_example = (collector_macros-Pairs 1 8 32 heap (omega arith)).calloc_scanned

-- A guard of zeros, and a read of three bytes.
abbrev unset : List ℕ
unset = replicate 64 0

guard_setup-is_set_example : is_set (guard_setup none (some (stored (7 ∷ 8 ∷ 9 ∷ []))) unset) ≡ true
guard_setup-is_set_example =
    (guard_setup-is_set unset (some (stored (7 ∷ 8 ∷ 9 ∷ []))) refl (omega arith)).0

range_inside_range-Inside_example :
    (range_inside_range (make_range 3 4) (make_range 2 9) ≡ true)
    ↔ Inside (make_range 3 4) (make_range 2 9)
range_inside_range-Inside_example =
    range_inside_range-Inside (make_range 3 4) (make_range 2 9) (omega arith) (omega arith)
