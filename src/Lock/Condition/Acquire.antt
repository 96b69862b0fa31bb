-- ===== src/Lock/Condition/Acquire.antt =====
-- How threads hand the condition lock to each other.
use regexkit.Base.{
  ℕ, ◌≡◌, refl, arith, inl, inr, Bool-cases, ◌==◌, Bool, true, false, ◌&&◌, ◌||◌, List, [], ◌∷◌,
  if◌then◌else◌, ok, raise, locking,
}
use regexkit.Lock.Pthreads.{Answer, success, is_success}
use regexkit.Lock.Mutex.{fast_mutex_lock, fast_mutex_unlock, take_answer, is_lazy}
use regexkit.Lock.Condition.{
  when_condition, try_when_condition, ConditionLock, Flags, flags, is_ready, Wake, after_wait,
  wait_for, take_lock, with_mutex, fast_condition_lock, wake_all, fast_condition_unlock,
  unlock_with_condition,
}

-- The wakes return without an error.
abbrev pub no_errors : List Wake → Bool
no_errors [] = true
no_errors (w ∷ wakes) = is_success w.answer && no_errors wakes

-- The lock is ready at first or at one of the wakes.
abbrev pub comes_ready : Flags → ℕ → ConditionLock → List Wake → Bool
comes_ready f wanted l [] = is_ready f wanted l
comes_ready f wanted l (w ∷ wakes) = is_ready f wanted l || comes_ready f wanted w.found wakes

success_of : (a : Answer) → is_success a ≡ true → a ≡ success
success_of success h = refl
success_of Answer.again h = absurd (ground (arith, h))
success_of Answer.busy h = absurd (ground (arith, h))
success_of Answer.dead_lock h = absurd (ground (arith, h))
success_of Answer.no_memory h = absurd (ground (arith, h))
success_of Answer.invalid h = absurd (ground (arith, h))
success_of Answer.not_permitted h = absurd (ground (arith, h))
success_of Answer.timed_out h = absurd (ground (arith, h))
success_of Answer.unknown h = absurd (ground (arith, h))

-- The loop ends at a lock that is ready.
wait_for-is_ready :
    (f : Flags) (wanted : ℕ) (l : ConditionLock) (wakes : List Wake)
    → no_errors wakes ≡ true
    → comes_ready f wanted l wakes ≡ true
    → (found : ConditionLock) × (wait_for f wanted l wakes ≡ ok (found, false))
      × (is_ready f wanted found ≡ true)
unfolding wait_for after_wait
wait_for-is_ready f wanted l [] clean h = (l, rw h refl, h)
wait_for-is_ready f wanted l (w ∷ wakes) clean h = elim (Bool-cases (is_ready f wanted l)) [
  | inl now ↦ (l, rw now refl, now)
  | inr wait ↦
      let (found, e, r) =
        wait_for-is_ready f wanted w.found wakes (ground (arith, clean))
          (ground (arith, wait, h)) in
      (found, rw (wait, success_of w.answer (ground (arith, clean))) e, r)
]

-- The lock as the thread holds it, with a condition.
abbrev pub held_by : ℕ → ℕ → ConditionLock
held_by thread condition = record { is_locked = true; owner = thread; condition = condition }

-- The thread does not hold the lock already.
abbrev pub is_owner : ℕ → ConditionLock → Bool
is_owner thread l = l.is_locked && (l.owner == thread)

-- A thread that waits for a condition, and does not hold the lock, gets it where the lock is ready
-- at first or at one of the wakes, and no call of pthreads fails: the call answers YES, and leaves
-- the lock held by the thread, with the condition that it waited for.
pub fast_condition_lock-held_by :
    (wanted thread : ℕ) (seen l : ConditionLock) (wakes : List Wake)
    → is_owner thread l ≡ false
    → no_errors wakes ≡ true
    → comes_ready (flags when_condition) wanted l wakes ≡ true
    → fast_condition_lock when_condition wanted thread seen success l wakes success
      ≡ ok (held_by thread wanted, true)
unfolding fast_condition_lock flags fast_mutex_lock take_answer is_lazy with_mutex fast_mutex_unlock
    take_lock
fast_condition_lock-held_by wanted thread seen l wakes other clean h =
    let (found, e, r) = wait_for-is_ready (flags when_condition) wanted l wakes clean h in
    rw (other, e, r) refl

-- After an unlock with a condition by the holder, where no call of pthreads fails, a thread that
-- tries for that condition gets the lock with it, a try for another condition is refused and leaves
-- the lock as it is, and a second unlock raises.
unlock_with_condition-try :
    (condition wanted holder thread : ℕ) (l : ConditionLock)
    → l.is_locked ≡ true
    → l.owner ≡ holder
    → (after : ConditionLock) × (unlock_with_condition condition holder success l success
        ≡ ok (after, wake_all))
      × (fast_condition_lock try_when_condition wanted thread after success after [] success
          ≡ ok (if condition == wanted then (held_by thread wanted, true) else (after, false)))
      × (unlock_with_condition condition holder success after success ≡ raise locking)
unfolding unlock_with_condition fast_condition_unlock fast_mutex_lock take_answer is_lazy
    fast_mutex_unlock fast_condition_lock flags with_mutex take_lock wait_for
unlock_with_condition-try condition wanted holder thread l locked own =
    let after : ConditionLock = record l { is_locked = false; condition = condition } in
    let same : (l.owner == holder) ≡ true = ground (arith, own) in
    (
      after,
      rw (locked, same) refl,
      elim (Bool-cases (condition == wanted)) [
        | inl e ↦ rw e (rw (e, take_lock) refl)
        | inr e ↦ rw e refl
      ],
      refl,
    )
