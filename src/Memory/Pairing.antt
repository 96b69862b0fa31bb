-- ===== src/Memory/Pairing.antt =====
-- The two builds agree where nothing collects, and what a macro allocates, its partner frees.
use regexkit.Base.{
  ℕ, ◌≡◌, ◌≢◌, ◌==◌, refl, arith, inl, inr, Bool-cases, Bool, true, false, Option, some, List, ◌∷◌,
}
use regexkit.Memory.Macros.{
  Heap, Allocator, MemoryMacros, malloc, calloc, allocate_collectable, cleared, remove_first, free,
  free_and_clear, collector_macros, plain_macros,
}

-- What an allocation and then a free leave: the heap with the collector's blocks that came in
-- between, and the pointer. The pairs are those of the comments in the sources: a `NoGC` block is
-- freed by `RKFreeAndNULLNoGC`, the others by `RKFreeAndNULL`.
abbrev pub Frees : Allocator → (ℕ → Heap → Option (Heap × ℕ)) → ℕ → ℕ → Heap → Type 0
Frees allocate release size p h =
    (after : Heap) × (release p (allocate size p h).0 ≡ some (after, 0))
    × (after.malloced ≡ h.malloced)
    × (after.autoreleased ≡ h.autoreleased)

-- Of a block of `size` bytes at `p`.
pub record Pairs (macros : MemoryMacros) (size p : ℕ) (h : Heap) : Type 0 where
  pub no_gc : Frees macros.malloc_no_gc macros.free_and_null_no_gc size p h
  pub scanned : Frees macros.malloc_scanned macros.free_and_null size p h
  pub not_scanned : Frees macros.malloc_not_scanned macros.free_and_null size p h
  pub calloc_no_gc : Frees macros.calloc_no_gc macros.free_and_null_no_gc size p h
  pub calloc_scanned : Frees macros.calloc_scanned macros.free_and_null size p h
  pub calloc_not_scanned : Frees macros.calloc_not_scanned macros.free_and_null size p h

remove_first_self : (p : ℕ) (ps : List ℕ) → remove_first p (p ∷ ps) ≡ some ps
unfolding remove_first
remove_first_self p ps = ground arith

-- The block on top of the heap of malloc and calloc.
free-top : (p : ℕ) (h : Heap) → p ≢ 0 → free p (record h { malloced = p ∷ h.malloced }) ≡ some h
unfolding free
free-top p h nonnull =
    let away : (p == 0) ≡ false = ground (arith, nonnull) in
    rw (away, remove_first_self p h.malloced) refl

free-malloced :
    (p : ℕ) (h : Heap)
    → p ≢ 0
    → free_and_clear p (record h { malloced = p ∷ h.malloced }) ≡ some (h, 0)
free-malloced p h nonnull = rw (free-top p h nonnull, free_and_clear) refl

malloc-Frees : (size p : ℕ) (h : Heap) → p ≢ 0 → Frees malloc free_and_clear size p h
malloc-Frees size p h nonnull = (h, free-malloced p h nonnull, refl, refl)

calloc-Frees : (size p : ℕ) (h : Heap) → p ≢ 0 → Frees calloc free_and_clear size p h
calloc-Frees size p h nonnull = (h, free-malloced p h nonnull, refl, refl)

pub plain_macros-Pairs : (size p : ℕ) (h : Heap) → p ≢ 0 → Pairs plain_macros size p h
unfolding plain_macros
plain_macros-Pairs size p h nonnull = record {
  no_gc = malloc-Frees size p h nonnull;
  scanned = malloc-Frees size p h nonnull;
  not_scanned = malloc-Frees size p h nonnull;
  calloc_no_gc = calloc-Frees size p h nonnull;
  calloc_scanned = calloc-Frees size p h nonnull;
  calloc_not_scanned = calloc-Frees size p h nonnull;
}

-- In the build for a collector, with the flag at 0, every macro is what it is in the other build.
pub collector_macros-plain_macros : collector_macros 0 ≡ plain_macros
unfolding collector_macros plain_macros
collector_macros-plain_macros = refl

-- Blocks of the collector are not passed to `free`.
collecting-Frees :
    (scanned : Bool) (size p : ℕ) (h : Heap)
    → Frees (allocate_collectable scanned) (λ p h. some (h, 0)) size p h
collecting-Frees scanned size p h = (_, refl, refl, refl)

cleared-Frees :
    (scanned : Bool) (size p : ℕ) (h : Heap)
    → Frees (cleared (allocate_collectable scanned)) (λ p h. some (h, 0)) size p h
cleared-Frees scanned size p h = (_, refl, refl, refl)

-- Whatever the value of the flag, a block that an allocating macro gave, at an address that is not
-- NULL, is freed by the macro for it: `free` is called with a live block of malloc or calloc, or not
-- at all; the pointer is NULL then, and no block of malloc or calloc is left or missing.
pub collector_macros-Pairs :
    (flag size p : ℕ) (h : Heap) → p ≢ 0 → Pairs (collector_macros flag) size p h
unfolding collector_macros
collector_macros-Pairs flag size p h nonnull =
    let allocated = malloc-Frees size p h nonnull in
    let zeroed = calloc-Frees size p h nonnull in
    elim (Bool-cases (flag == 0)) [
      | inl off ↦ record {
        no_gc = allocated;
        scanned = rw off allocated;
        not_scanned = rw off allocated;
        calloc_no_gc = zeroed;
        calloc_scanned = rw off zeroed;
        calloc_not_scanned = rw off zeroed;
      }
      | inr on ↦ record {
        no_gc = allocated;
        scanned = rw on (collecting-Frees true size p h);
        not_scanned = rw on (collecting-Frees false size p h);
        calloc_no_gc = zeroed;
        calloc_scanned = rw on (cleared-Frees true size p h);
        calloc_not_scanned = rw on (cleared-Frees false size p h);
      }
    ]
