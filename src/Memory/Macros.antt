-- ===== src/Memory/Macros.antt =====
-- The macros of Source/Headers/RegexKit/RegexKitPrivateMemory.h, as what they do to the memory and
-- to the objects.
use regexkit.Base.{ℕ, ◌==◌, Bool, true, false, Option, some, none, List, [], ◌∷◌, if◌then◌else◌}

-- The blocks that are live, by address: those of malloc and calloc, those that
-- `RKAutoreleasedMalloc` frees later, and those of the collector.
pub record Heap : Type 0 where
  pub malloced : List ℕ
  pub autoreleased : List ℕ
  pub collected : List ℕ

-- What is known of a new block. A block of the collector that is scanned keeps alive what it
-- points to.
pub record Block : Type 0 where
  pub address : ℕ
  pub size : ℕ
  pub zeroed : Bool
  pub scanned : Bool

-- From the size and the address that the allocator answers.
abbrev pub Allocator : Type 0
Allocator = ℕ → ℕ → Heap → Heap × Block

abbrev pub malloc : Allocator
malloc size p h = (
  record h { malloced = p ∷ h.malloced },
  record { address = p; size = size; zeroed = false; scanned = false },
)

abbrev pub calloc : Allocator
calloc size p h = (
  record h { malloced = p ∷ h.malloced },
  record { address = p; size = size; zeroed = true; scanned = false },
)

abbrev pub autoreleased_malloc : Allocator
autoreleased_malloc size p h = (
  record h { autoreleased = p ∷ h.autoreleased },
  record { address = p; size = size; zeroed = false; scanned = false },
)

-- NSAllocateCollectable, with NSScannedOption or with no option; its memory is zeros.
abbrev pub allocate_collectable : Bool → Allocator
allocate_collectable scanned size p h = (
  record h { collected = p ∷ h.collected },
  record { address = p; size = size; zeroed = true; scanned = scanned },
)

-- `memset(NSAllocateCollectable(...), 0, _size)`
abbrev pub cleared : Allocator → Allocator
cleared allocate size p h =
    let (after, block) = allocate size p h in (after, record block { zeroed = true })

unfoldable pub remove_first : ℕ → List ℕ → Option (List ℕ)
remove_first p [] = none
remove_first p (q ∷ qs) =
    let rest = remove_first p qs in
    if p == q then some qs else elim rest [ none ↦ none | some rs ↦ some (q ∷ rs) ]

-- `free`, where it is allowed: of `NULL`, which is 0, and of a live block of malloc or calloc.
unfoldable pub free : ℕ → Heap → Option Heap
free p h = if p == 0 then some h else elim (remove_first p h.malloced) [
  | none ↦ none
  | some rest ↦ some (record h { malloced = rest })
]

-- `free(ptr); ptr = NULL;`, with the pointer that is left.
abbrev pub free_and_clear : ℕ → Heap → Option (Heap × ℕ)
free_and_clear p h = elim (free p h) [ none ↦ none | some after ↦ some (after, 0) ]

-- What is sent to an object, or called with it.
pub data Sent : Type 0 where
  nothing make_collectable retain autorelease release dealloc cf_retain cf_release : Sent
  enable_collector disable_collector : Sent

pub data Move : Type 0 where
  memmove objc_memmove_collectable : Move

pub record MemoryMacros : Type 0 where
  pub autoreleased_malloc_no_gc : Allocator
  pub autoreleased_malloc_scanned : Allocator
  pub autoreleased_malloc_not_scanned : Allocator
  pub malloc_no_gc : Allocator
  pub malloc_scanned : Allocator
  pub malloc_not_scanned : Allocator
  pub calloc_no_gc : Allocator
  pub calloc_scanned : Allocator
  pub calloc_not_scanned : Allocator
  pub free_and_null : ℕ → Heap → Option (Heap × ℕ)
  pub free_and_null_no_gc : ℕ → Heap → Option (Heap × ℕ)
  pub mem_move : Move
  -- Of a pointer, which may be `NULL`.
  pub enable_collector_for_pointer : ℕ → Sent
  pub disable_collector_for_pointer : ℕ → Sent
  pub on_collectable : Sent  -- RKMakeCollectable
  pub on_collectable_or_autorelease : Sent
  pub on_autorelease : Sent
  pub on_cf_retain : Sent
  pub on_cf_release : Sent
  pub on_retain : Sent
  pub on_release : Sent
  pub on_dealloc : Sent

-- `RK_EXPECTED(RKRegexGarbageCollect == 0, 1) ? a : b`
abbrev pub unless_collecting : {A : Type 0} → ℕ → A → A → A
unless_collecting flag a b = if flag == 0 then a else b

-- `RK_EXPECTED(RKRegexGarbageCollect == 1, 0) ? a : b`
abbrev pub when_collecting : {A : Type 0} → ℕ → A → A → A
when_collecting flag a b = if flag == 1 then a else b

-- With ENABLE_MACOSX_GARBAGE_COLLECTION; the flag is `RKRegexGarbageCollect`.
unfoldable pub collector_macros : ℕ → MemoryMacros
collector_macros flag = record {
  autoreleased_malloc_no_gc = autoreleased_malloc;
  autoreleased_malloc_scanned =
      unless_collecting flag autoreleased_malloc (allocate_collectable true);
  autoreleased_malloc_not_scanned =
      unless_collecting flag autoreleased_malloc (allocate_collectable false);
  malloc_no_gc = malloc;
  malloc_scanned = unless_collecting flag malloc (allocate_collectable true);
  malloc_not_scanned = unless_collecting flag malloc (allocate_collectable false);
  calloc_no_gc = calloc;
  calloc_scanned = unless_collecting flag calloc (cleared (allocate_collectable true));
  calloc_not_scanned = unless_collecting flag calloc (cleared (allocate_collectable false));
  free_and_null = λ p h. unless_collecting flag (free_and_clear p h) (some (h, 0));
  free_and_null_no_gc = free_and_clear;
  mem_move = unless_collecting flag memmove objc_memmove_collectable;
  enable_collector_for_pointer =
      λ p. when_collecting flag (if p == 0 then nothing else enable_collector) nothing;
  disable_collector_for_pointer =
      λ p. when_collecting flag (if p == 0 then nothing else disable_collector) nothing;
  on_collectable = when_collecting flag make_collectable nothing;
  on_collectable_or_autorelease = when_collecting flag make_collectable autorelease;
  on_autorelease = when_collecting flag nothing autorelease;
  on_cf_retain = when_collecting flag nothing cf_retain;
  on_cf_release = when_collecting flag nothing cf_release;
  on_retain = when_collecting flag nothing retain;
  on_release = when_collecting flag nothing release;
  on_dealloc = when_collecting flag nothing dealloc;
}

-- Without it.
unfoldable pub plain_macros : MemoryMacros
plain_macros = record {
  autoreleased_malloc_no_gc = autoreleased_malloc;
  autoreleased_malloc_scanned = autoreleased_malloc;
  autoreleased_malloc_not_scanned = autoreleased_malloc;
  malloc_no_gc = malloc;
  malloc_scanned = malloc;
  malloc_not_scanned = malloc;
  calloc_no_gc = calloc;
  calloc_scanned = calloc;
  calloc_not_scanned = calloc;
  free_and_null = free_and_clear;
  free_and_null_no_gc = free_and_clear;
  mem_move = memmove;
  enable_collector_for_pointer = λ p. nothing;
  disable_collector_for_pointer = λ p. nothing;
  on_collectable = nothing;
  on_collectable_or_autorelease = autorelease;
  on_autorelease = autorelease;
  on_cf_retain = cf_retain;
  on_cf_release = cf_release;
  on_retain = retain;
  on_release = release;
  on_dealloc = dealloc;
}
