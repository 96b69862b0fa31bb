-- ===== src/Tests/LockRuns.antt =====
-- The locks of Source/RKLock.m at small inputs.
use regexkit.Base.{◌≡◌, refl, true, false, List, [], ◌∷◌, ok}
use regexkit.Lock.Pthreads.{Answer, success, busy, unknown}
use regexkit.Lock.ReadWrite.{
  ReadWriteLock, Locking, for_writing, try_for_writing_then_for_reading,
  try_for_writing_then_try_for_reading, lock_threaded, lock_with_strategy,
}
use regexkit.Lock.ReadWrite.Settles.{Settled}
use regexkit.Lock.ReadWrite.Strategies.{lock_with_strategy-Settled, lock_threaded-try}
use regexkit.Lock.Condition.{when_condition, fast_condition_lock}
use regexkit.Lock.Condition.Acquire.{held_by, fast_condition_lock-held_by}

abbrev fresh : ReadWriteLock
fresh = record {
  read_busy_count = 0;
  read_spin_count = 0;
  read_downgraded_from_write_count = 0;
  write_busy_count = 0;
  write_spin_count = 0;
  spurious_errors_count = 0;
  write_locked = false;
  debugging_enabled = true;
}

abbrev answers : List Answer
answers = busy ∷ unknown ∷ busy ∷ success ∷ []

lock_with_strategy-Settled_example :
    (r : Locking) × (lock_with_strategy try_for_writing_then_for_reading false true fresh answers
      ≡ ok (true, r))
    × Settled false r
lock_with_strategy-Settled_example =
    lock_with_strategy-Settled try_for_writing_then_for_reading false true fresh answers refl refl

lock_threaded-try_example :
    lock_threaded try_for_writing_then_try_for_reading fresh (busy ∷ success ∷ [])
    ≡ lock_threaded for_writing fresh (busy ∷ success ∷ [])
lock_threaded-try_example = (lock_threaded-try fresh busy (success ∷ [])).2

fast_condition_lock-held_by_example :
    fast_condition_lock when_condition 7 1
      (held_by 2 5)
      success
      (held_by 2 5)
      (record { answer = success; found = held_by 3 5 }
        ∷ record {
          answer = success;
          found = record { is_locked = false; owner = 3; condition = 7 };
        }
        ∷ [])
      success
    ≡ ok (held_by 1 7, true)
fast_condition_lock-held_by_example =
    fast_condition_lock-held_by 7 1 (held_by 2 5) (held_by 2 5)
      (record { answer = success; found = held_by 3 5 }
        ∷ record {
          answer = success;
          found = record { is_locked = false; owner = 3; condition = 7 };
        }
        ∷ [])
      refl refl refl
