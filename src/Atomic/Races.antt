-- ===== src/Atomic/Races.antt =====
-- What two threads see that increment the same cell.
use regexkit.Base.{ℕ, ◌≡◌, refl, Bool, true, false, List, [], ◌∷◌}
use regexkit.Atomic.Programs.{Access, Program, done, Threads, turn, interleave}
use regexkit.Atomic.Platforms.{FreeBsdAtomic, free_bsd_ops, call}
use regexkit.Atomic.Contracts.{FreeBsdDocumented, up}

-- Two threads that make the same call.
abbrev pub both : ℕ → Program → Threads
both v p = record { cell = v; first = p; second = p }

-- Threads that are done leave everything as it is.
done-interleave :
    (v r s : ℕ) (schedule : List Bool)
    → interleave (record { cell = v; first = done r; second = done s }) schedule
      ≡ record { cell = v; first = done r; second = done s }
unfolding interleave turn
done-interleave v r s [] = refl
done-interleave v r s (true ∷ schedule) = done-interleave v r s schedule
done-interleave v r s (false ∷ schedule) = done-interleave v r s schedule

-- On FreeBSD, where one thread increments between the addition and the load of another, both see
-- the value that the second left: the cell is right, and the result of the first is not.
pub free_bsd_ops-race :
    (bsd : FreeBsdAtomic) (lp64 : Bool) (v : ℕ)
    → FreeBsdDocumented bsd
    → interleave (both v (free_bsd_ops bsd lp64).increment_int) (true ∷ false ∷ true ∷ false ∷ [])
      ≡ both (up 32 1 (up 32 1 v)) (done (up 32 1 (up 32 1 v)))
unfolding interleave turn free_bsd_ops
free_bsd_ops-race bsd lp64 v d =
    rw (d.adds 32 1 v, d.adds 32 1 (up 32 1 v))
      (rw (d.loads 32 (up 32 1 (up 32 1 v))) (rw (d.loads 32 (up 32 1 (up 32 1 v))) refl))

-- Two calls that each are one access, in any order: the results are the first and the second value.
pub call-race :
    (a : Access) (f : ℕ → ℕ) (v : ℕ) (late : List Bool)
    → ((u : ℕ) → a u ≡ (f u, f u))
    → (interleave (both v (call a)) (true ∷ false ∷ late)
        ≡ record { cell = f (f v); first = done (f v); second = done (f (f v)) })
      × (interleave (both v (call a)) (false ∷ true ∷ late)
          ≡ record { cell = f (f v); first = done (f (f v)); second = done (f v) })
unfolding interleave turn
call-race a f v late h = (
  rw (h v, h (f v)) (done-interleave (f (f v)) (f v) (f (f v)) late),
  rw (h v, h (f v)) (done-interleave (f (f v)) (f (f v)) (f v) late),
)
