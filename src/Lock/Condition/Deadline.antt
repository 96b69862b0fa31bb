-- ===== src/Lock/Condition/Deadline.antt =====
-- The times that the methods of `RKConditionLock` wait for.
use regexkit.Base.{ℕ, ◌≡◌, refl, Option, some, none}
use regexkit.Lock.Condition.{
  flags, deadline, LockCall, try_lock, try_lock_when_condition, lock, lock_before_date,
  lock_before_time_interval_since_now, lock_when_condition, lock_when_condition_before_date,
  lock_when_condition_before_time_interval_since_now,
}

module _ {T : Type 0} (zero : T) (now_plus : T → T) where
  -- The time until which a call waits.
  abbrev pub waits_until : LockCall T → Option T
  waits_until c = deadline zero now_plus (flags c.strategy) c.time

  -- Each of the four methods with a time waits until the time zero, whatever time it is given, and
  -- none looks at the clock. The methods without a time have no limit; the strategy of the one
  -- that is to try is that of the one that waits.
  waits_until-zero :
      (condition : ℕ) (time : T)
      → (waits_until (lock_before_date zero time) ≡ some zero)
        × (waits_until (lock_before_time_interval_since_now zero time) ≡ some zero)
        × (waits_until (lock_when_condition_before_date zero condition time) ≡ some zero)
        × (waits_until (lock_when_condition_before_time_interval_since_now zero condition time)
            ≡ some zero)
        × (waits_until (lock_when_condition zero condition) ≡ none)
        × (waits_until (try_lock_when_condition zero condition) ≡ none)
        × (try_lock zero ≡ lock zero)
  unfolding deadline flags lock_before_date lock_before_time_interval_since_now
      lock_when_condition_before_date lock_when_condition_before_time_interval_since_now
      lock_when_condition try_lock_when_condition try_lock lock
  waits_until-zero condition time = (refl, refl, refl, refl, refl, refl, refl)
