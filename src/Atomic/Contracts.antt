-- ===== src/Atomic/Contracts.antt =====
-- What the platforms document of the operations that
-- Source/Headers/RegexKit/RegexKitPrivateAtomic.h calls, and what the library expects of its own.
use regexkit.Base.{ℕ, ◌+◌, ◌-◌, ◌%◌, ◌^◌, ◌≡◌, ◌==◌, Bool, if◌then◌else◌}
use regexkit.Atomic.Programs.{Program, run, AtomicOps}
use regexkit.Atomic.Platforms.{OsAtomic, FreeBsdAtomic, SolarisAtomic, GccAtomic, width}

abbrev pub up : ℕ → ℕ → ℕ → ℕ
up w n v = (v + n) % 2 ^ w

abbrev pub down : ℕ → ℕ → ℕ → ℕ
down w n v = (v + 2 ^ w - n) % 2 ^ w

abbrev pub swapped : ℕ → ℕ → ℕ → ℕ
swapped old new v = if v == old then new else v

abbrev pub flag : ℕ → ℕ → ℕ
flag old v = if v == old then 1 else 0

pub record OsDocumented (os : OsAtomic) : Type 0 where
  pub swaps :
      (w old new v : ℕ) → os.compare_and_swap_barrier w old new v ≡ (swapped old new v, flag old v)
  pub increments : (w v : ℕ) → os.increment w v ≡ (up w 1 v, up w 1 v)
  pub decrements : (w v : ℕ) → os.decrement w v ≡ (down w 1 v, down w 1 v)
  pub increments_barrier : (w v : ℕ) → os.increment_barrier w v ≡ (up w 1 v, up w 1 v)
  pub decrements_barrier : (w v : ℕ) → os.decrement_barrier w v ≡ (down w 1 v, down w 1 v)

pub record FreeBsdDocumented (bsd : FreeBsdAtomic) : Type 0 where
  pub swaps : (w old new v : ℕ) → bsd.cmpset_rel w old new v ≡ (swapped old new v, flag old v)
  pub adds : (w n v : ℕ) → (bsd.add w n v).0 ≡ up w n v
  pub subtracts : (w n v : ℕ) → (bsd.subtract w n v).0 ≡ down w n v
  pub adds_rel : (w n v : ℕ) → (bsd.add_rel w n v).0 ≡ up w n v
  pub subtracts_rel : (w n v : ℕ) → (bsd.subtract_rel w n v).0 ≡ down w n v
  pub loads : (w v : ℕ) → bsd.load_acq w v ≡ (v, v)

pub record SolarisDocumented (sun : SolarisAtomic) : Type 0 where
  pub swaps : (w old new v : ℕ) → sun.cas w old new v ≡ (swapped old new v, v)
  pub increments : (w v : ℕ) → sun.inc_nv w v ≡ (up w 1 v, up w 1 v)
  pub decrements : (w v : ℕ) → sun.dec_nv w v ≡ (down w 1 v, down w 1 v)

pub record GccDocumented (gcc : GccAtomic) : Type 0 where
  pub swaps :
      (w old new v : ℕ) → gcc.bool_compare_and_swap w old new v ≡ (swapped old new v, flag old v)
  pub adds : (w n v : ℕ) → gcc.add_and_fetch w n v ≡ (up w n v, up w n v)
  pub subtracts : (w n v : ℕ) → gcc.sub_and_fetch w n v ≡ (down w n v, down w n v)

-- A swap at the width `w`: the new value and `YES` where the cell had the old one.
abbrev pub Swaps : (ℕ → ℕ → Program) → Type 0
Swaps swap = (old new v : ℕ) → run (swap old new) v ≡ (swapped old new v, flag old v)

-- A change of the cell whose result is the new value.
abbrev pub Changes : Program → (ℕ → ℕ) → Type 0
Changes p f = (v : ℕ) → run p v ≡ (f v, f v)

-- What the library expects of every platform, for the operations on integers that it runs alone.
pub record Expected (lp64 : Bool) (ops : AtomicOps) : Type 0 where
  pub swap_int : Swaps ops.compare_and_swap_int
  pub swap_integer : Swaps ops.compare_and_swap_integer
  pub increment_int : Changes ops.increment_int (up 32 1)
  pub decrement_int : Changes ops.decrement_int (down 32 1)
  pub increment_int_barrier : Changes ops.increment_int_barrier (up 32 1)
  pub decrement_int_barrier : Changes ops.decrement_int_barrier (down 32 1)
  pub increment_integer : Changes ops.increment_integer (up (width lp64) 1)
  pub decrement_integer : Changes ops.decrement_integer (down (width lp64) 1)
  pub increment_integer_barrier : Changes ops.increment_integer_barrier (up (width lp64) 1)
  pub decrement_integer_barrier : Changes ops.decrement_integer_barrier (down (width lp64) 1)

-- The swap of pointers: as it is meant on three platforms, and that of gcc, which swaps what the names
-- `oldValue` and `newValue` mean where it is used, whatever its arguments are.
pub record PointerSwaps (on_mac on_bsd on_sun on_gcc : AtomicOps) (old_value new_value : ℕ)
    : Type 0 where
  pub mac : Swaps on_mac.compare_and_swap_ptr
  pub free_bsd : Swaps on_bsd.compare_and_swap_ptr
  pub solaris : Swaps on_sun.compare_and_swap_ptr
  pub gcc_names :
      (old new v : ℕ)
      → run (on_gcc.compare_and_swap_ptr old new) v
        ≡ (swapped old_value new_value v, flag old_value v)
