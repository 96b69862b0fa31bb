-- ===== src/Atomic/Platforms.antt =====
-- The platforms' blocks of Source/Headers/RegexKit/RegexKitPrivateAtomic.h. The operations of the
-- platforms are parameters, by width where a family has one member a width. `lp64` says whether
-- `__LP64__` is defined. Barriers order accesses to other memory, of which there is none here.
use regexkit.Base.{ℕ, ◌==◌, Bool, true, false, if◌then◌else◌}
use regexkit.Atomic.Programs.{Access, Program, done, access, AtomicOps}

abbrev pub width : Bool → ℕ
width true = 64
width false = 32

-- A call whose result is the result.
abbrev pub call : Access → Program
call a = access a done

-- OSAtomicCompareAndSwap32Barrier, OSAtomicIncrement32, … of Mac OS X
pub record OsAtomic : Type 0 where
  pub compare_and_swap_barrier : ℕ → ℕ → ℕ → Access
  pub increment : ℕ → Access
  pub decrement : ℕ → Access
  pub increment_barrier : ℕ → Access
  pub decrement_barrier : ℕ → Access

unfoldable pub mac_ops : OsAtomic → Bool → AtomicOps
mac_ops os lp64 = record {
  compare_and_swap_int = λ old new. call (os.compare_and_swap_barrier 32 old new);
  compare_and_swap_ptr = λ old new. call (os.compare_and_swap_barrier (width lp64) old new);
  compare_and_swap_integer = λ old new. call (os.compare_and_swap_barrier (width lp64) old new);
  increment_int = call (os.increment 32);
  decrement_int = call (os.decrement 32);
  increment_int_barrier = call (os.increment_barrier 32);
  decrement_int_barrier = call (os.decrement_barrier 32);
  increment_integer = call (os.increment (width lp64));
  decrement_integer = call (os.decrement (width lp64));
  increment_integer_barrier = call (os.increment_barrier (width lp64));
  decrement_integer_barrier = call (os.decrement_barrier (width lp64));
}

-- OSAtomicOr32Barrier, OSAtomicAnd32Barrier, OSAtomicTestAndSetBarrier, OSAtomicTestAndClearBarrier
pub record OsBits : Type 0 where
  pub or_barrier : ℕ → Access
  pub and_barrier : ℕ → Access
  pub test_and_set_barrier : ℕ → Access
  pub test_and_clear_barrier : ℕ → Access

-- The operations on bits, which only Mac OS X has.
pub record BitOps : Type 0 where
  pub or_int_barrier : ℕ → Program
  pub and_int_barrier : ℕ → Program
  pub test_and_set : ℕ → Program
  pub test_and_clear : ℕ → Program

unfoldable pub mac_bit_ops : OsBits → BitOps
mac_bit_ops os = record {
  or_int_barrier = λ mask. call (os.or_barrier mask);
  and_int_barrier = λ mask. call (os.and_barrier mask);
  test_and_set = λ bit. call (os.test_and_set_barrier bit);
  test_and_clear = λ bit. call (os.test_and_clear_barrier bit);
}

-- atomic_cmpset_rel_int, atomic_add_int, atomic_load_acq_32, … of FreeBSD; the additions and
-- subtractions have no result, so whatever their access gives is dropped.
pub record FreeBsdAtomic : Type 0 where
  pub cmpset_rel : ℕ → ℕ → ℕ → Access
  pub add : ℕ → ℕ → Access
  pub subtract : ℕ → ℕ → Access
  pub add_rel : ℕ → ℕ → Access
  pub subtract_rel : ℕ → ℕ → Access
  pub load_acq : ℕ → Access

-- `atomic_add_int(ptr, 1); return(atomic_load_acq_32(ptr));`
abbrev pub then_load : Access → Access → Program
then_load change load = access change (λ _. call load)

unfoldable pub free_bsd_ops : FreeBsdAtomic → Bool → AtomicOps
free_bsd_ops bsd lp64 = record {
  compare_and_swap_int = λ old new. call (bsd.cmpset_rel 32 old new);
  compare_and_swap_ptr = λ old new. call (bsd.cmpset_rel (width lp64) old new);
  compare_and_swap_integer = λ old new. call (bsd.cmpset_rel (width lp64) old new);
  increment_int = then_load (bsd.add 32 1) (bsd.load_acq 32);
  decrement_int = then_load (bsd.subtract 32 1) (bsd.load_acq 32);
  increment_int_barrier = then_load (bsd.add_rel 32 1) (bsd.load_acq 32);
  decrement_int_barrier = then_load (bsd.subtract_rel 32 1) (bsd.load_acq 32);
  increment_integer = then_load (bsd.add (width lp64) 1) (bsd.load_acq (width lp64));
  decrement_integer = then_load (bsd.subtract (width lp64) 1) (bsd.load_acq (width lp64));
  increment_integer_barrier = then_load (bsd.add_rel (width lp64) 1) (bsd.load_acq (width lp64));
  decrement_integer_barrier =
      then_load (bsd.subtract_rel (width lp64) 1) (bsd.load_acq (width lp64));
}

-- atomic_cas_uint, atomic_inc_uint_nv, … of Solaris: `cas` gives the value that it found.
pub record SolarisAtomic : Type 0 where
  pub cas : ℕ → ℕ → ℕ → Access
  pub inc_nv : ℕ → Access
  pub dec_nv : ℕ → Access

-- `== oldValue ? YES : NO`
abbrev pub found_old : Access → ℕ → Program
found_old a old = access a (λ v. done (if v == old then 1 else 0))

unfoldable pub solaris_ops : SolarisAtomic → Bool → AtomicOps
solaris_ops sun lp64 = record {
  compare_and_swap_int = λ old new. found_old (sun.cas 32 old new) old;
  compare_and_swap_ptr = λ old new. found_old (sun.cas (width lp64) old new) old;
  compare_and_swap_integer = λ old new. found_old (sun.cas (width lp64) old new) old;
  increment_int = call (sun.inc_nv 32);
  decrement_int = call (sun.dec_nv 32);
  increment_int_barrier = call (sun.inc_nv 32);
  decrement_int_barrier = call (sun.dec_nv 32);
  increment_integer = call (sun.inc_nv (width lp64));
  decrement_integer = call (sun.dec_nv (width lp64));
  increment_integer_barrier = call (sun.inc_nv (width lp64));
  decrement_integer_barrier = call (sun.dec_nv (width lp64));
}

-- __sync_bool_compare_and_swap, __sync_add_and_fetch and __sync_sub_and_fetch of gcc, which take
-- the width from the type of the pointer.
pub record GccAtomic : Type 0 where
  pub bool_compare_and_swap : ℕ → ℕ → ℕ → Access
  pub add_and_fetch : ℕ → ℕ → Access
  pub sub_and_fetch : ℕ → ℕ → Access

-- The body of the macro `RKAtomicCompareAndSwapPtr(oldp, newp, ptr)` names `oldValue` and
-- `newValue`, not its arguments: `old_value` and `new_value` are what those names mean where the
-- macro is used.
unfoldable pub gcc_ops : GccAtomic → ℕ → ℕ → Bool → AtomicOps
gcc_ops gcc old_value new_value lp64 = record {
  compare_and_swap_int = λ old new. call (gcc.bool_compare_and_swap 32 old new);
  compare_and_swap_ptr =
      λ oldp newp. call (gcc.bool_compare_and_swap (width lp64) old_value new_value);
  compare_and_swap_integer = λ old new. call (gcc.bool_compare_and_swap (width lp64) old new);
  increment_int = call (gcc.add_and_fetch 32 1);
  decrement_int = call (gcc.sub_and_fetch 32 1);
  increment_int_barrier = call (gcc.add_and_fetch 32 1);
  decrement_int_barrier = call (gcc.sub_and_fetch 32 1);
  increment_integer = call (gcc.add_and_fetch (width lp64) 1);
  decrement_integer = call (gcc.sub_and_fetch (width lp64) 1);
  increment_integer_barrier = call (gcc.add_and_fetch (width lp64) 1);
  decrement_integer_barrier = call (gcc.sub_and_fetch (width lp64) 1);
}
