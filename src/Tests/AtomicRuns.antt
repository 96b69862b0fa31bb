-- ===== src/Tests/AtomicRuns.antt =====
-- The platforms of the atomic operations over concrete cells.
use regexkit.Base.{◌≡◌, refl, true, false, [], ◌∷◌}
use regexkit.Atomic.Programs.{done, interleave}
use regexkit.Atomic.Platforms.{OsAtomic, FreeBsdAtomic, SolarisAtomic, GccAtomic, free_bsd_ops}
use regexkit.Atomic.Contracts.{up, down, swapped, flag, FreeBsdDocumented}
use regexkit.Atomic.Races.{both, free_bsd_ops-race}

abbrev os : OsAtomic
os = record {
  compare_and_swap_barrier = λ w old new v. (swapped old new v, flag old v);
  increment = λ w v. (up w 1 v, up w 1 v);
  decrement = λ w v. (down w 1 v, down w 1 v);
  increment_barrier = λ w v. (up w 1 v, up w 1 v);
  decrement_barrier = λ w v. (down w 1 v, down w 1 v);
}

abbrev bsd : FreeBsdAtomic
bsd = record {
  cmpset_rel = λ w old new v. (swapped old new v, flag old v);
  add = λ w n v. (up w n v, 0);
  subtract = λ w n v. (down w n v, 0);
  add_rel = λ w n v. (up w n v, 0);
  subtract_rel = λ w n v. (down w n v, 0);
  load_acq = λ w v. (v, v);
}

abbrev sun : SolarisAtomic
sun = record {
  cas = λ w old new v. (swapped old new v, v);
  inc_nv = λ w v. (up w 1 v, up w 1 v);
  dec_nv = λ w v. (down w 1 v, down w 1 v);
}

abbrev gcc : GccAtomic
gcc = record {
  bool_compare_and_swap = λ w old new v. (swapped old new v, flag old v);
  add_and_fetch = λ w n v. (up w n v, up w n v);
  sub_and_fetch = λ w n v. (down w n v, down w n v);
}

bsd-documented : FreeBsdDocumented bsd
bsd-documented = record {
  swaps = λ w old new v. refl;
  adds = λ w n v. refl;
  subtracts = λ w n v. refl;
  adds_rel = λ w n v. refl;
  subtracts_rel = λ w n v. refl;
  loads = λ w v. refl;
}

free_bsd_ops-race_example :
    interleave (both 4 (free_bsd_ops bsd true).increment_int) (true ∷ false ∷ true ∷ false ∷ [])
    ≡ both 6 (done 6)
free_bsd_ops-race_example = free_bsd_ops-race bsd true 4 bsd-documented
