-- ===== src/Lock/ReadWrite/Strategies.antt =====
-- The strategies of `RKFastReadWriteLockWithStrategy`.
use regexkit.Base.{◌≡◌, refl, arith, Bool, true, false, ◌||◌, List, [], ◌∷◌, ok}
use regexkit.Lock.Pthreads.{
  Answer, success, again, busy, dead_lock, no_memory, invalid, not_permitted, timed_out, unknown,
  is_success, try_write,
}
use regexkit.Lock.ReadWrite.{
  Strategy, did_not_lock, for_reading, for_writing, try_for_reading, try_for_writing,
  try_for_writing_then_for_reading, try_for_writing_then_try_for_reading, ReadWriteLock, Locking,
  after_call, trying, go_on, attempt, write_or_read, wants_writing, lock_threaded,
  lock_with_strategy,
}
use regexkit.Lock.ReadWrite.Settles.{
  any_success, Settled, Settles, after_call-Settles, acquired-Settles, attempt-Settles,
}

-- The write lock is refused at first, and the code goes on to read.
refused-Settles :
    (a : Answer) (l : ReadWriteLock) (later : List Answer)
    → is_success a ≡ false
    → any_success later ≡ true
    → Settles l.write_locked (after_call try_write a (attempt false false l later))
refused-Settles a l later failed h =
    after_call-Settles l.write_locked try_write a _ failed (attempt-Settles false false l later h)

write_or_read-Settles :
    (l : ReadWriteLock) (later : List Answer)
    → any_success later ≡ true
    → Settles l.write_locked (write_or_read l later)
unfolding write_or_read
write_or_read-Settles l [] h = absurd (ground (arith, h))
write_or_read-Settles l (success ∷ later) h = acquired-Settles l.write_locked true try_write l refl
write_or_read-Settles l (again ∷ later) h = refused-Settles again l later refl h
write_or_read-Settles l (busy ∷ later) h = refused-Settles busy l later refl h
write_or_read-Settles l (dead_lock ∷ later) h = refused-Settles dead_lock l later refl h
write_or_read-Settles l (no_memory ∷ later) h = refused-Settles no_memory l later refl h
write_or_read-Settles l (invalid ∷ later) h = refused-Settles invalid l later refl h
write_or_read-Settles l (not_permitted ∷ later) h = refused-Settles not_permitted l later refl h
write_or_read-Settles l (timed_out ∷ later) h = refused-Settles timed_out l later refl h
write_or_read-Settles l (unknown ∷ later) h = refused-Settles unknown l later refl h

lock_threaded-Settles :
    (s : Strategy) (l : ReadWriteLock) (answers : List Answer)
    → any_success answers ≡ true
    → Settles l.write_locked (lock_threaded s l answers)
unfolding lock_threaded
lock_threaded-Settles did_not_lock l answers h = attempt-Settles false _ l answers h
lock_threaded-Settles for_reading l answers h = attempt-Settles false _ l answers h
lock_threaded-Settles for_writing l answers h = attempt-Settles false _ l answers h
lock_threaded-Settles try_for_reading l answers h = attempt-Settles true false l answers h
lock_threaded-Settles try_for_writing l answers h = attempt-Settles true true l answers h
lock_threaded-Settles try_for_writing_then_for_reading l answers h =
    write_or_read-Settles l answers h
lock_threaded-Settles try_for_writing_then_try_for_reading l answers h =
    attempt-Settles false _ l answers h

-- In a process with threads, if pthreads grants the lock at some call, the function returns with
-- any strategy. It answers YES where the last of its calls was granted, and no other was; the
-- level and the flag of the lock are those of that call. It answers NO where no call was granted;
-- the level is `RKLockDidNotLock` then, and the flag is as it was.
pub lock_with_strategy-Settled :
    (s : Strategy) (is_multi has_threads : Bool) (l : ReadWriteLock) (answers : List Answer)
    → is_multi || has_threads ≡ true
    → any_success answers ≡ true
    → (r : Locking) × (lock_with_strategy s is_multi has_threads l answers ≡ ok (true, r))
      × Settled l.write_locked r
unfolding lock_with_strategy
lock_with_strategy-Settled s true has_threads l answers t h =
    let found = lock_threaded-Settles s l answers h in
    (found.result, rw found.returned refl, found.settled)
lock_with_strategy-Settled s false true l answers t h =
    let found = lock_threaded-Settles s l answers h in
    (found.result, rw found.returned refl, found.settled)
lock_with_strategy-Settled s false false l answers t h = absurd (ground (arith, t))

-- The strategies that are called `try`: with one of the first two, the function makes exactly one
-- call, which does not block, and returns, whatever the answer. The third, `for writing, then try for
-- reading`, is the blocking lock for writing.
attempt-once :
    (writing : Bool) (l : ReadWriteLock) (a : Answer) (later : List Answer)
    → (r : Locking) × (attempt true writing l (a ∷ later) ≡ ok r)
      × (r.calls ≡ record { kind = trying writing; answer = a } ∷ [])
unfolding attempt go_on
attempt-once writing l success later = (_, refl, refl)
attempt-once writing l again later = (_, refl, refl)
attempt-once writing l busy later = (_, refl, refl)
attempt-once writing l dead_lock later = (_, refl, refl)
attempt-once writing l no_memory later = (_, refl, refl)
attempt-once writing l invalid later = (_, refl, refl)
attempt-once writing l not_permitted later = (_, refl, refl)
attempt-once writing l timed_out later = (_, refl, refl)
attempt-once writing l unknown later = (_, refl, refl)

pub lock_threaded-try :
    (l : ReadWriteLock) (a : Answer) (later : List Answer)
    → ((r : Locking) × (lock_threaded try_for_reading l (a ∷ later) ≡ ok r)
        × (r.calls ≡ record { kind = trying false; answer = a } ∷ []))
      × ((r : Locking) × (lock_threaded try_for_writing l (a ∷ later) ≡ ok r)
          × (r.calls ≡ record { kind = trying true; answer = a } ∷ []))
      × (lock_threaded try_for_writing_then_try_for_reading l (a ∷ later)
          ≡ lock_threaded for_writing l (a ∷ later))
unfolding lock_threaded wants_writing
lock_threaded-try l a later = (attempt-once false l a later, attempt-once true l a later, refl)
