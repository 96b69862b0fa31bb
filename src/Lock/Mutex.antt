-- ===== src/Lock/Mutex.antt =====
-- The mutex functions of Source/RKLock.m, and `RKLock`, which is a mutex. `is_multi` is
-- `globalIsMultiThreaded`, which is handed on with the result, and `has_threads` is what
-- `[NSThread isMultiThreaded]` answers.
use regexkit.Base.{Bool, true, false, not, ◌&&◌, if◌then◌else◌, Outcome, ok, raise, locking, ◌>>=◌}
use regexkit.Lock.Pthreads.{
  Answer, success, again, busy, dead_lock, no_memory, invalid, not_permitted, timed_out, unknown,
}

-- RKMutexDidNotLock, …
pub data MutexStrategy : Type 0 where
  did_not_lock try_lazy_lock try_full_lock lazy_lock full_lock : MutexStrategy

unfoldable pub is_lazy : MutexStrategy → Bool
is_lazy did_not_lock = false
is_lazy try_lazy_lock = true
is_lazy try_full_lock = false
is_lazy lazy_lock = true
is_lazy full_lock = false

-- The call is `pthread_mutex_trylock`, and not `pthread_mutex_lock`.
unfoldable pub is_try : MutexStrategy → Bool
is_try did_not_lock = false
is_try try_lazy_lock = true
is_try try_full_lock = true
is_try lazy_lock = false
is_try full_lock = false

-- The switch on the answer of the one call.
unfoldable pub take_answer : Answer → Outcome Bool
take_answer success = ok true
take_answer again = ok false
take_answer busy = ok false
take_answer dead_lock = raise locking
take_answer no_memory = ok false
take_answer invalid = raise locking
take_answer not_permitted = ok false
take_answer timed_out = ok false
take_answer unknown = ok false

-- `RKFastMutexLock`: the flag after it, and whether it locked.
unfoldable pub fast_mutex_lock : MutexStrategy → Bool → Bool → Answer → Outcome (Bool × Bool)
fast_mutex_lock strategy is_multi has_threads a =
    if not is_multi && is_lazy strategy && not has_threads
    then ok (is_multi, true)
    else take_answer a >>= λ did_lock.
        ok ((if not is_multi && is_lazy strategy then true else is_multi), did_lock)

-- `RKFastMutexUnlock`
unfoldable pub fast_mutex_unlock : Answer → Outcome {0} Unit
fast_mutex_unlock success = ok tt
fast_mutex_unlock again = ok tt
fast_mutex_unlock busy = ok tt
fast_mutex_unlock dead_lock = ok tt
fast_mutex_unlock no_memory = ok tt
fast_mutex_unlock invalid = raise locking
fast_mutex_unlock not_permitted = raise locking
fast_mutex_unlock timed_out = ok tt
fast_mutex_unlock unknown = ok tt

-- `RKFastLock` and `-[RKLock lock]`
unfoldable pub fast_lock : Bool → Bool → Answer → Outcome (Bool × Bool)
fast_lock is_multi has_threads a =
    if not is_multi && not has_threads
    then ok (is_multi, true)
    else fast_mutex_lock full_lock true has_threads a

-- `RKFastUnlock` and `-[RKLock unlock]`
unfoldable pub fast_unlock : Bool → Answer → Outcome {0} Unit
fast_unlock is_multi a = if is_multi then fast_mutex_unlock a else ok tt
