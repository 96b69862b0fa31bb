-- ===== src/Lock/ReadWrite/Settles.antt =====
-- What a call of `RKFastReadWriteLockWithStrategy` leaves, compared to the calls of pthreads that it
-- made.
use regexkit.Base.{
  ℕ, suc, ◌≡◌, refl, ap, ◌∙◌, arith, inl, inr, ◌⊎◌, Bool-cases, Bool, true, false, ◌||◌, Option,
  some, none, List, [], ◌∷◌, if◌then◌else◌, ltb, Outcome, ok,
}
use regexkit.Lock.Pthreads.{
  Answer, success, again, busy, dead_lock, no_memory, invalid, not_permitted, timed_out, unknown,
  is_success, Kind, Call, is_writing,
}
use regexkit.Lock.ReadWrite.{
  did_not_lock, ReadWriteLock, Locking, max_spurious, count_busy, count_spin, count_spurious,
  level_of, acquired, gave_up, after_call, waiting, trying, wait, go_on, attempt,
}

-- What the thread holds of the pthreads lock after the calls: whether it is for writing.
abbrev pub holds : List Call → Option Bool
holds [] = none
holds (c ∷ cs) = if is_success c.answer then some (is_writing c.kind) else holds cs

abbrev pub successes : List Call → ℕ
successes [] = 0
successes (c ∷ cs) = if is_success c.answer then suc (successes cs) else successes cs

-- Some answer is a success.
abbrev pub any_success : List Answer → Bool
any_success [] = false
any_success (a ∷ later) = is_success a || any_success later

-- The result, the level and the flag of the lock say what the thread holds. `before` is the flag
-- that the lock had.
pub record Settled (before : Bool) (r : Locking) : Type 0 where
  pub held : holds r.calls ≡ (if r.did_lock then some r.lock.write_locked else none)
  pub once : successes r.calls ≡ (if r.did_lock then 1 else 0)
  pub told : r.level ≡ (if r.did_lock then level_of r.lock.write_locked else did_not_lock)
  pub kept : (r.did_lock ≡ true) ⊎ (r.lock.write_locked ≡ before)

-- The code returns, and it is settled what it holds.
pub record Settles (before : Bool) (o : Outcome Locking) : Type 0 where
  pub result : Locking
  pub returned : o ≡ ok result
  pub settled : Settled before result

pub gave_up-Settles :
    (before : Bool) (l : ReadWriteLock) → l.write_locked ≡ before → Settles before (ok (gave_up l))
gave_up-Settles before l e = record {
  result = _;
  returned = refl;
  settled = record { held = refl; once = refl; told = refl; kept = inr e };
}

waiting-is_writing : (writing : Bool) → is_writing (waiting writing) ≡ writing
waiting-is_writing true = refl
waiting-is_writing false = refl

trying-is_writing : (writing : Bool) → is_writing (trying writing) ≡ writing
trying-is_writing true = refl
trying-is_writing false = refl

pub acquired-Settles :
    (before writing : Bool) (kind : Kind) (l : ReadWriteLock)
    → is_writing kind ≡ writing
    → Settles before (after_call kind success (ok (acquired writing l)))
acquired-Settles before writing kind l e = record {
  result = _;
  returned = refl;
  settled = record { held = ap some e; once = refl; told = refl; kept = inl refl };
}

-- A call that does not succeed adds nothing to what is held.
pub after_call-Settles :
    (before : Bool) (kind : Kind) (a : Answer) (o : Outcome Locking)
    → is_success a ≡ false
    → Settles before o
    → Settles before (after_call kind a o)
after_call-Settles before kind a o failed s = record {
  result = _;
  returned = ap (after_call kind a) s.returned;
  settled = record {
    held = rw failed s.settled.held;
    once = rw failed s.settled.once;
    told = s.settled.told;
    kept = s.settled.kept;
  };
}

count_spin-write_locked :
    (w : Bool) (l : ReadWriteLock) → (count_spin w l).write_locked ≡ l.write_locked
unfolding count_spin
count_spin-write_locked w l = elim (Bool-cases l.debugging_enabled) [
  | inl on ↦ elim (Bool-cases w) [ inl e ↦ rw (on, e) refl | inr e ↦ rw (on, e) refl ]
  | inr off ↦ rw off refl
]

count_busy-write_locked :
    (w : Bool) (l : ReadWriteLock) → (count_busy w l).write_locked ≡ l.write_locked
unfolding count_busy
count_busy-write_locked w l = elim (Bool-cases l.debugging_enabled) [
  | inl on ↦ elim (Bool-cases w) [ inl e ↦ rw (on, e) refl | inr e ↦ rw (on, e) refl ]
  | inr off ↦ rw off refl
]

-- An error that no case names: the loop goes on while the errors are few.
spurious-Settles :
    (before few : Bool) (l : ReadWriteLock) (o : Outcome Locking)
    → l.write_locked ≡ before
    → Settles before o
    → Settles before (if few then o else ok (gave_up l))
spurious-Settles before true l o e s = s
spurious-Settles before false l o e s = gave_up-Settles before l e

wait-Settles :
    (before writing : Bool) (spurious : ℕ) (l : ReadWriteLock) (later : List Answer)
    → l.write_locked ≡ before
    → any_success later ≡ true
    → Settles before (wait writing spurious l later)
unfolding wait count_spurious
wait-Settles before writing spurious l [] e h = absurd (ground (arith, h))
wait-Settles before writing spurious l (success ∷ later) e h =
    acquired-Settles before writing (waiting writing) l (waiting-is_writing writing)
wait-Settles before writing spurious l (again ∷ later) e h =
    after_call-Settles before (waiting writing) again _ refl (
      wait-Settles before writing spurious (count_spin writing l) later
        (count_spin-write_locked writing l ∙ e) h)
wait-Settles before writing spurious l (busy ∷ later) e h =
    after_call-Settles before (waiting writing) busy _ refl (
      wait-Settles before writing spurious (count_spin writing l) later
        (count_spin-write_locked writing l ∙ e) h)
wait-Settles before writing spurious l (dead_lock ∷ later) e h =
    after_call-Settles before (waiting writing) dead_lock _ refl (gave_up-Settles before l e)
wait-Settles before writing spurious l (no_memory ∷ later) e h =
    after_call-Settles before (waiting writing) no_memory _ refl (gave_up-Settles before l e)
wait-Settles before writing spurious l (invalid ∷ later) e h =
    after_call-Settles before (waiting writing) invalid _ refl (gave_up-Settles before l e)
wait-Settles before writing spurious l (not_permitted ∷ later) e h =
    after_call-Settles before (waiting writing) not_permitted _ refl (
      spurious-Settles before (ltb spurious max_spurious) l _ e
        (wait-Settles before writing (suc spurious) (count_spurious l) later e h))
wait-Settles before writing spurious l (timed_out ∷ later) e h =
    after_call-Settles before (waiting writing) timed_out _ refl (
      spurious-Settles before (ltb spurious max_spurious) l _ e
        (wait-Settles before writing (suc spurious) (count_spurious l) later e h))
wait-Settles before writing spurious l (unknown ∷ later) e h =
    after_call-Settles before (waiting writing) unknown _ refl (
      spurious-Settles before (ltb spurious max_spurious) l _ e
        (wait-Settles before writing (suc spurious) (count_spurious l) later e h))

-- Behind the first call: a `try` strategy ends, the others wait.
go_on-Settles :
    (before once writing : Bool) (spurious : ℕ) (l : ReadWriteLock) (later : List Answer)
    → l.write_locked ≡ before
    → any_success later ≡ true
    → Settles before (go_on once writing spurious l later)
unfolding go_on
go_on-Settles before true writing spurious l later e h = gave_up-Settles before l e
go_on-Settles before false writing spurious l later e h =
    wait-Settles before writing spurious l later e h

pub attempt-Settles :
    (once writing : Bool) (l : ReadWriteLock) (later : List Answer)
    → any_success later ≡ true
    → Settles l.write_locked (attempt once writing l later)
unfolding attempt count_spurious
attempt-Settles once writing l [] h = absurd (ground (arith, h))
attempt-Settles once writing l (success ∷ later) h =
    acquired-Settles l.write_locked writing (trying writing) l (trying-is_writing writing)
attempt-Settles once writing l (again ∷ later) h =
    after_call-Settles l.write_locked (trying writing) again _ refl (
      go_on-Settles l.write_locked once writing 0 (count_busy writing l) later
        (count_busy-write_locked writing l) h)
attempt-Settles once writing l (busy ∷ later) h =
    after_call-Settles l.write_locked (trying writing) busy _ refl (
      go_on-Settles l.write_locked once writing 0 (count_busy writing l) later
        (count_busy-write_locked writing l) h)
attempt-Settles once writing l (dead_lock ∷ later) h =
    after_call-Settles l.write_locked (trying writing) dead_lock _ refl
      (gave_up-Settles l.write_locked l refl)
attempt-Settles once writing l (no_memory ∷ later) h =
    after_call-Settles l.write_locked (trying writing) no_memory _ refl
      (gave_up-Settles l.write_locked l refl)
attempt-Settles once writing l (invalid ∷ later) h =
    after_call-Settles l.write_locked (trying writing) invalid _ refl
      (gave_up-Settles l.write_locked l refl)
attempt-Settles once writing l (not_permitted ∷ later) h =
    after_call-Settles l.write_locked (trying writing) not_permitted _ refl
      (go_on-Settles l.write_locked once writing 1 (count_spurious l) later refl h)
attempt-Settles once writing l (timed_out ∷ later) h =
    after_call-Settles l.write_locked (trying writing) timed_out _ refl
      (go_on-Settles l.write_locked once writing 1 (count_spurious l) later refl h)
attempt-Settles once writing l (unknown ∷ later) h =
    after_call-Settles l.write_locked (trying writing) unknown _ refl
      (go_on-Settles l.write_locked once writing 1 (count_spurious l) later refl h)
