-- ===== src/Lock/ReadWrite.antt =====
-- `RKReadWriteLock` of Source/RKLock.m. Beside the lock, a run notes the calls of pthreads that it
-- made, the first one first.
pub mod Settles
pub mod Strategies
use regexkit.Base.{
  ℕ, zero, suc, ◌+◌, ◌%◌, ltb, Bool, true, false, not, ◌&&◌, ◌||◌, List, [], ◌∷◌, if◌then◌else◌,
  Outcome, ok, out_of_fuel, ◌>>=◌,
}
use regexkit.Foundation.{word}
use regexkit.Lock.Pthreads.{
  Answer, success, again, busy, dead_lock, no_memory, invalid, not_permitted, timed_out, unknown,
  Kind, try_read, try_write, read, write, Call,
}

-- RKLockDidNotLock, …
pub data Strategy : Type 0 where
  did_not_lock for_reading for_writing try_for_reading try_for_writing : Strategy
  try_for_writing_then_for_reading try_for_writing_then_try_for_reading : Strategy

pub record ReadWriteLock : Type 0 where
  pub read_busy_count : ℕ
  pub read_spin_count : ℕ
  pub read_downgraded_from_write_count : ℕ
  pub write_busy_count : ℕ
  pub write_spin_count : ℕ
  pub spurious_errors_count : ℕ
  pub write_locked : Bool
  pub debugging_enabled : Bool

-- What a call of the lock function leaves: `level` is the value at `lockLevelAcquired`.
pub record Locking : Type 0 where
  pub lock : ReadWriteLock
  pub did_lock : Bool
  pub level : Strategy
  pub calls : List Call

-- RKLOCK_MAX_SPURIOUS_ERROR_ATTEMPTS
abbrev pub max_spurious : ℕ
max_spurious = 2

abbrev increment : ℕ → ℕ
increment n = (n + 1) % word

-- The counters, the first two of which count only while debugging.
unfoldable pub count_busy : Bool → ReadWriteLock → ReadWriteLock
count_busy writing l =
    if l.debugging_enabled
    then (if writing
        then record l { write_busy_count = increment l.write_busy_count }
        else record l { read_busy_count = increment l.read_busy_count })
    else l

unfoldable pub count_spin : Bool → ReadWriteLock → ReadWriteLock
count_spin writing l =
    if l.debugging_enabled
    then (if writing
        then record l { write_spin_count = increment l.write_spin_count }
        else record l { read_spin_count = increment l.read_spin_count })
    else l

unfoldable pub count_spurious : ReadWriteLock → ReadWriteLock
count_spurious l = record l { spurious_errors_count = increment l.spurious_errors_count }

abbrev pub level_of : Bool → Strategy
level_of true = for_writing
level_of false = for_reading

abbrev pub acquired : Bool → ReadWriteLock → Locking
acquired writing l = record {
  lock = record l { write_locked = writing };
  did_lock = true;
  level = level_of writing;
  calls = [];
}

-- `exitNow` without the lock.
abbrev pub gave_up : ReadWriteLock → Locking
gave_up l = record { lock = l; did_lock = false; level = did_not_lock; calls = [] }

abbrev pub after_call : Kind → Answer → Outcome Locking → Outcome Locking
after_call kind a o =
    o >>= λ r. ok (record r { calls = record { kind = kind; answer = a } ∷ r.calls })

abbrev pub waiting : Bool → Kind
waiting true = write
waiting false = read

abbrev pub trying : Bool → Kind
trying true = try_write
trying false = try_read

-- The loops, over `pthread_rwlock_wrlock` and over `pthread_rwlock_rdlock`; `spurious` counts the
-- errors that no case names.
unfoldable pub wait : Bool → ℕ → ReadWriteLock → List Answer → Outcome Locking
wait writing spurious l [] = out_of_fuel
wait writing spurious l (success ∷ later) =
    after_call (waiting writing) success (ok (acquired writing l))
wait writing spurious l (again ∷ later) =
    after_call (waiting writing) again (wait writing spurious (count_spin writing l) later)
wait writing spurious l (busy ∷ later) =
    after_call (waiting writing) busy (wait writing spurious (count_spin writing l) later)
wait writing spurious l (dead_lock ∷ later) =
    after_call (waiting writing) dead_lock (ok (gave_up l))
wait writing spurious l (no_memory ∷ later) =
    after_call (waiting writing) no_memory (ok (gave_up l))
wait writing spurious l (invalid ∷ later) = after_call (waiting writing) invalid (ok (gave_up l))
wait writing spurious l (a ∷ later) =
    let rest = wait writing (suc spurious) (count_spurious l) later in
    after_call (waiting writing) a (if ltb spurious max_spurious then rest else ok (gave_up l))

-- Behind the first call, which was busy or had an error that no case names: a `try` strategy ends.
unfoldable pub go_on : Bool → Bool → ℕ → ReadWriteLock → List Answer → Outcome Locking
go_on once writing spurious l later = if once then ok (gave_up l) else wait writing spurious l later

-- The first call, `pthread_rwlock_trywrlock` or `pthread_rwlock_tryrdlock`, and what follows. An
-- error that no case names is the first of the call, so it is never one too many.
unfoldable pub attempt : Bool → Bool → ReadWriteLock → List Answer → Outcome Locking
attempt once writing l [] = out_of_fuel
attempt once writing l (success ∷ later) =
    after_call (trying writing) success (ok (acquired writing l))
attempt once writing l (again ∷ later) =
    after_call (trying writing) again (go_on once writing 0 (count_busy writing l) later)
attempt once writing l (busy ∷ later) =
    after_call (trying writing) busy (go_on once writing 0 (count_busy writing l) later)
attempt once writing l (dead_lock ∷ later) = after_call (trying writing) dead_lock (ok (gave_up l))
attempt once writing l (no_memory ∷ later) = after_call (trying writing) no_memory (ok (gave_up l))
attempt once writing l (invalid ∷ later) = after_call (trying writing) invalid (ok (gave_up l))
attempt once writing l (a ∷ later) =
    after_call (trying writing) a (go_on once writing 1 (count_spurious l) later)

-- `RKLockTryForWritingThenForReading`: a write lock at the first call, or else a read lock.
unfoldable pub write_or_read : ReadWriteLock → List Answer → Outcome Locking
write_or_read l [] = out_of_fuel
write_or_read l (success ∷ later) = after_call try_write success (ok (acquired true l))
write_or_read l (a ∷ later) = after_call try_write a (attempt false false l later)

-- `forWriting`, as it is set at the top.
unfoldable pub wants_writing : Strategy → Bool
wants_writing for_reading = false
wants_writing try_for_reading = false
wants_writing _ = true

unfoldable pub lock_threaded : Strategy → ReadWriteLock → List Answer → Outcome Locking
lock_threaded try_for_writing_then_for_reading l later = write_or_read l later
lock_threaded try_for_reading l later = attempt true false l later
lock_threaded try_for_writing l later = attempt true true l later
lock_threaded s l later = attempt false (wants_writing s) l later

-- `RKFastReadWriteLockWithStrategy`, with the flag `globalIsMultiThreaded` that it leaves.
unfoldable pub lock_with_strategy :
    Strategy → Bool → Bool → ReadWriteLock → List Answer → Outcome (Bool × Locking)
lock_with_strategy s is_multi has_threads l later =
    if not is_multi && not has_threads
    then ok (is_multi, acquired (wants_writing s) l)
    else lock_threaded s l later >>= λ r. ok (true, r)

-- `RKFastReadWriteUnlock`: the lock as it is, and whether `pthread_rwlock_unlock` is called; what it
-- answers is logged at most.
unfoldable pub unlock : Bool → ReadWriteLock → ReadWriteLock × Bool
unlock is_multi l = (l, is_multi)

-- `RKFastReadWriteLock`
unfoldable pub fast_lock :
    Bool → Bool → Bool → ReadWriteLock → List Answer → Outcome (Bool × Locking)
fast_lock writing = lock_with_strategy (level_of writing)

-- `setDebug:`
unfoldable pub set_debug : Bool → ReadWriteLock → ReadWriteLock
set_debug enable l = record l { debugging_enabled = enable }

-- `clearCounters`
unfoldable pub clear_counters : ReadWriteLock → ReadWriteLock
clear_counters l = record l {
  read_busy_count = 0;
  read_spin_count = 0;
  read_downgraded_from_write_count = 0;
  write_busy_count = 0;
  write_spin_count = 0;
}
