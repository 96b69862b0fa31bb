-- ===== src/Lock/Condition.antt =====
-- `RKConditionLock` of Source/RKLock.m. Other threads may change the lock until the mutex is got and
-- whenever the code waits: what is found then is a parameter, and so are the answers of pthreads.
-- A time is of any type with a zero and the sum of `gettimeofday` and a time.
pub mod Acquire
pub mod Deadline
use regexkit.Base.{
  ℕ, ◌==◌, Bool, true, false, not, ◌&&◌, ◌||◌, Option, some, none, List, [], ◌∷◌, if◌then◌else◌,
  Outcome, ok, raise, out_of_fuel, locking, ◌>>=◌,
}
use regexkit.Lock.Pthreads.{
  Answer, success, again, busy, dead_lock, no_memory, invalid, not_permitted, timed_out, unknown,
}
use regexkit.Lock.Mutex.{try_full_lock, full_lock, fast_mutex_lock, fast_mutex_unlock}

-- RKConditionLockAnyCondition, …
pub data ConditionStrategy : Type 0 where
  any_condition when_condition try_any_condition try_when_condition : ConditionStrategy
  try_any_condition_until_time try_when_condition_until_time : ConditionStrategy
  try_any_condition_relative_time try_when_condition_relative_time : ConditionStrategy

-- RKConditionUnlockAndWakeNone, …
pub data UnlockStrategy : Type 0 where
  wake_none wake_one wake_all : UnlockStrategy

-- The mutex and the condition variable are in the answers. A thread is a number.
pub record ConditionLock : Type 0 where
  pub is_locked : Bool
  pub owner : ℕ
  pub condition : ℕ

-- The flags that the switch on the strategy sets.
pub record Flags : Type 0 where
  pub on_any_condition : Bool
  pub try_to_lock : Bool
  pub is_relative : Bool
  pub can_time_out : Bool

abbrev flag_set : Bool → Bool → Bool → Bool → Flags
flag_set a t r c = record {
  on_any_condition = a;
  try_to_lock = t;
  is_relative = r;
  can_time_out = c;
}

unfoldable pub flags : ConditionStrategy → Flags
flags any_condition = flag_set true false false false
flags when_condition = flag_set false false false false
flags try_any_condition = flag_set true true false false
flags try_when_condition = flag_set false true false false
flags try_any_condition_until_time = flag_set true false false true
flags try_when_condition_until_time = flag_set false false false true
flags try_any_condition_relative_time = flag_set true false true true
flags try_when_condition_relative_time = flag_set false false true true

-- The time until which the code waits, if it does not wait for ever.
unfoldable pub deadline : {T : Type 0} → T → (T → T) → Flags → T → Option T
deadline zero now_plus f time =
    let given = if f.can_time_out && not f.is_relative then zero else time in
    if f.can_time_out then some (if f.is_relative then now_plus given else given) else none

-- The lock can be taken.
abbrev pub is_ready : Flags → ℕ → ConditionLock → Bool
is_ready f wanted l = not l.is_locked && ((l.condition == wanted) || f.on_any_condition)

-- The return of one wait, and the lock that is found then.
pub record Wake : Type 0 where
  pub answer : Answer
  pub found : ConditionLock

-- The loop over `pthread_cond_wait` or `pthread_cond_timedwait`, with whether it timed out.
unfoldable pub after_wait :
    Flags → Wake → Outcome (ConditionLock × Bool) → Outcome (ConditionLock × Bool)
after_wait f w rest = elim w.answer [
  | success ↦ rest
  | again ↦ raise locking
  | busy ↦ raise locking
  | dead_lock ↦ raise locking
  | no_memory ↦ raise locking
  | invalid ↦ if f.can_time_out then ok (w.found, true) else raise locking
  | not_permitted ↦ raise locking
  | timed_out ↦ ok (w.found, true)
  | unknown ↦ raise locking
]

unfoldable pub wait_for : Flags → ℕ → ConditionLock → List Wake → Outcome (ConditionLock × Bool)
wait_for f wanted l [] = if is_ready f wanted l then ok (l, false) else out_of_fuel
wait_for f wanted l (w ∷ wakes) =
    let rest = after_wait f w (wait_for f wanted w.found wakes) in
    if is_ready f wanted l then ok (l, false) else rest

-- The assignments where the lock is taken.
unfoldable pub take_lock : Flags → ℕ → ℕ → ConditionLock × Bool → ConditionLock × Bool
take_lock f wanted thread (l, late) =
    if is_ready f wanted l && not late
    then (
      record l {
        is_locked = true;
        owner = thread;
        condition = if f.on_any_condition then l.condition else wanted;
      },
      true,
    )
    else (l, false)

-- Behind the lock of the mutex; `unlocked` is what its unlock answers.
unfoldable pub with_mutex :
    Flags → ℕ → ℕ → ConditionLock → List Wake → Answer → Outcome (ConditionLock × Bool)
with_mutex f wanted thread l wakes unlocked =
    if l.is_locked && (l.owner == thread)
    then raise locking
    else if f.try_to_lock && not (is_ready f wanted l)
    then (fast_mutex_unlock unlocked >>= λ _. ok (l, false))
    else (wait_for f wanted l wakes >>= λ r.
        fast_mutex_unlock unlocked >>= λ _. ok (take_lock f wanted thread r))

-- `RKFastConditionLock`: the lock as it is seen at first and as it is behind the lock of the mutex,
-- and then the answers. The flag `globalIsMultiThreaded` does not matter for a full lock.
unfoldable pub fast_condition_lock :
    ConditionStrategy
    → ℕ
    → ℕ
    → ConditionLock
    → Answer
    → ConditionLock
    → List Wake
    → Answer
    → Outcome (ConditionLock × Bool)
fast_condition_lock s wanted thread seen mutex l wakes unlocked =
    let f = flags s in
    if f.try_to_lock && not (is_ready f wanted seen)
    then ok (seen, false)
    else fast_mutex_lock (if f.try_to_lock then try_full_lock else full_lock) true true mutex
      >>= λ (_, got).
          if got
          then with_mutex f wanted thread l wakes unlocked
          else (if f.try_to_lock then ok (l, false) else raise locking)

-- `RKFastConditionUnlock`, with the threads that are woken.
unfoldable pub fast_condition_unlock :
    UnlockStrategy
    → ℕ
    → ℕ
    → Answer
    → ConditionLock
    → Answer
    → Outcome (ConditionLock × UnlockStrategy)
fast_condition_unlock s condition thread mutex l unlocked =
    fast_mutex_lock full_lock true true mutex >>= λ (_, got).
    if not got
    then raise locking
    else if not l.is_locked || not (l.owner == thread)
    then raise locking
    else fast_mutex_unlock unlocked >>= λ _.
        ok (record l { is_locked = false; condition = condition }, s)

-- The methods, by the strategy, the condition and the time that they pass on: `tryLock`,
-- `tryLockWhenCondition:`, `lock`, `lockBeforeDate:`, `lockBeforeTimeIntervalSinceNow:`,
-- `lockWhenCondition:` and the last two with a condition.
pub record LockCall (T : Type 0) : Type 0 where
  pub condition : ℕ
  pub strategy : ConditionStrategy
  pub time : T

module _ {T : Type 0} (zero : T) where
  abbrev call : ℕ → ConditionStrategy → T → LockCall T
  call c s t = record { condition = c; strategy = s; time = t }

  unfoldable pub try_lock : LockCall T
  try_lock = call 0 any_condition zero

  unfoldable pub try_lock_when_condition : ℕ → LockCall T
  try_lock_when_condition c = call c try_when_condition zero

  unfoldable pub lock : LockCall T
  lock = call 0 any_condition zero

  unfoldable pub lock_before_date : T → LockCall T
  lock_before_date limit = call 0 try_any_condition_until_time limit

  unfoldable pub lock_before_time_interval_since_now : T → LockCall T
  lock_before_time_interval_since_now seconds = call 0 try_any_condition_until_time seconds

  unfoldable pub lock_when_condition : ℕ → LockCall T
  lock_when_condition c = call c when_condition zero

  unfoldable pub lock_when_condition_before_date : ℕ → T → LockCall T
  lock_when_condition_before_date c limit = call c try_when_condition_until_time limit

  unfoldable pub lock_when_condition_before_time_interval_since_now : ℕ → T → LockCall T
  lock_when_condition_before_time_interval_since_now c seconds =
      call c try_when_condition_until_time seconds

-- `unlock` and `unlockWithCondition:`
unfoldable pub unlock :
    ℕ → Answer → ConditionLock → Answer → Outcome (ConditionLock × UnlockStrategy)
unlock thread mutex l unlocked = fast_condition_unlock wake_all l.condition thread mutex l unlocked

unfoldable pub unlock_with_condition :
    ℕ → ℕ → Answer → ConditionLock → Answer → Outcome (ConditionLock × UnlockStrategy)
unlock_with_condition c thread mutex l unlocked =
    fast_condition_unlock wake_all c thread mutex l unlocked
