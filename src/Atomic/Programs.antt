-- ===== src/Atomic/Programs.antt =====
-- Programs over one shared cell, the operations that Source/Headers/RegexKit/RegexKitPrivateAtomic.h
-- declares, and the interleaving of two threads.
use regexkit.Base.{ℕ, Bool, true, false, List, [], ◌∷◌}

-- One atomic access: from the value of the cell to its new value and the result.
abbrev pub Access : Type 0
Access = ℕ → ℕ × ℕ

-- A program makes one access, goes on with its result, and ends with a result of its own.
pub data Program : Type 0 where
  done : ℕ → Program
  access : Access → (ℕ → Program) → Program

-- A program that no other thread disturbs: the cell and the result that it leaves.
unfoldable pub run : Program → ℕ → ℕ × ℕ
run (done r) v = (v, r)
run (access a k) v = run (k (a v).1) (a v).0

-- What the library calls, by the names that it gives its inline functions and macros.
pub record AtomicOps : Type 0 where
  pub compare_and_swap_int : ℕ → ℕ → Program
  pub compare_and_swap_ptr : ℕ → ℕ → Program
  pub compare_and_swap_integer : ℕ → ℕ → Program
  pub increment_int : Program
  pub decrement_int : Program
  pub increment_int_barrier : Program
  pub decrement_int_barrier : Program
  pub increment_integer : Program
  pub decrement_integer : Program
  pub increment_integer_barrier : Program
  pub decrement_integer_barrier : Program

-- Two threads. Each `true` of the schedule lets the first make its next access, each `false` the
-- second; a thread that is done passes.
pub record Threads : Type 0 where
  pub cell : ℕ
  pub first : Program
  pub second : Program

abbrev rest : Program → ℕ → ℕ × Program
rest (done r) v = (v, done r)
rest (access a k) v = ((a v).0, k (a v).1)

unfoldable pub turn : Threads → Bool → Threads
turn t true = record t { cell = (rest t.first t.cell).0; first = (rest t.first t.cell).1 }
turn t false = record t { cell = (rest t.second t.cell).0; second = (rest t.second t.cell).1 }

unfoldable pub interleave : Threads → List Bool → Threads
interleave t [] = t
interleave t (s ∷ schedule) = interleave (turn t s) schedule
