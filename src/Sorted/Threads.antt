-- ===== src/Sorted/Threads.antt =====
-- The threads of a search: several, by a schedule, or one alone.
use regexkit.Base.{ℕ, zero, suc, ◌==◌, Bool, if◌then◌else◌, List, [], ◌∷◌}
use regexkit.Sorted.{CollectionType, Search, Thread, entering, step}

-- The threads that a pool runs the function on, by number.
abbrev pub Threads : Type 0
Threads = ℕ → Thread

abbrev pub all_entering : Threads
all_entering i = entering

abbrev pub put : Threads → ℕ → Thread → Threads
put ts i t j = if j == i then t else ts j

module _ (kind : CollectionType) (sorted : List ℕ) (matches : ℕ → Bool) where
  -- The thread whose number is next in the schedule makes its step.
  unfoldable pub run : List ℕ → Search → Threads → Search × Threads
  run [] s ts = (s, ts)
  run (i ∷ schedule) s ts =
      let r = step kind sorted matches s (ts i) in run schedule r.0 (put ts i r.1)

  -- A thread alone, which makes at most `fuel` steps: where the pool takes no job, the function is
  -- called in the current thread.
  unfoldable pub run_alone : ℕ → Search → Thread → Search × Thread
  run_alone zero s t = (s, t)
  run_alone (suc fuel) s t = let r = step kind sorted matches s t in run_alone fuel r.0 r.1
