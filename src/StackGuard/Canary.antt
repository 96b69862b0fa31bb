-- ===== src/StackGuard/Canary.antt =====
-- What the guard of Source/RK_stack_chk.c is after its set-up.
use regexkit.Base.{
  ℕ, zero, suc, ◌+◌, ◌≤◌, ◌≡◌, refl, arith, inl, inr, ◌⊎◌, Bool-cases, Bool, true, false, ◌&&◌,
  Option, some, none, List, [], ◌∷◌, length, length-append, length-set, drop, set,
}
use regexkit.StackGuard.{
  guard_size, is_set, ReadResult, failed, stored, after_read, is_full, terminate, from_random,
  guard_setup,
}

-- `read` stores no more bytes than it is asked for.
abbrev pub Fits : Option ReadResult → Type 0
Fits none = Unit
Fits (some failed) = Unit
Fits (some (stored bytes)) = length bytes ≤ guard_size

length-terminate : (guard : List ℕ) → length (terminate guard) ≡ length guard
unfolding terminate
length-terminate guard =
    rw
      (
        length-set (set (set (set guard 0 0) 1 0) 2 10) 3 255,
        length-set (set (set guard 0 0) 1 0) 2 10,
        length-set (set guard 0 0) 1 0,
      )
      (length-set guard 0 0)

length-drop :
    {A : Type 0} (n : ℕ) (xs : List A) → n ≤ length xs → n + length (drop n xs) ≡ length xs
length-drop zero xs h = omega arith
length-drop (suc n) [] h = absurd (omega arith)
length-drop (suc n) (x ∷ xs) h = omega (arith, length-drop n xs (omega arith))

length-after_read :
    (guard : List ℕ) (r : ReadResult)
    → length guard ≡ guard_size
    → Fits (some r)
    → length (after_read guard r) ≡ guard_size
unfolding after_read
length-after_read guard failed e fits = e
length-after_read guard (stored bytes) e fits = omega (
  arith,
  length-append bytes (drop (length bytes) guard),
  length-drop (length bytes) guard (omega (arith, e, fits)),
  e,
)

-- Four bytes are enough for the canary to be there.
is_set-terminate : (guard : List ℕ) → 4 ≤ length guard → is_set (terminate guard) ≡ true
unfolding terminate
is_set-terminate [] h = absurd (omega arith)
is_set-terminate (a ∷ []) h = absurd (omega arith)
is_set-terminate (a ∷ b ∷ []) h = absurd (omega arith)
is_set-terminate (a ∷ b ∷ c ∷ []) h = absurd (omega arith)
is_set-terminate (a ∷ b ∷ c ∷ d ∷ rest) h = refl

pub is_set-from_random :
    (guard : List ℕ) (random : Option ReadResult)
    → length guard ≡ guard_size
    → Fits random
    → (is_set (from_random guard random) ≡ true) × (length (from_random guard random) ≡ guard_size)
unfolding from_random
is_set-from_random guard none e fits =
    (is_set-terminate guard (omega (arith, e)), omega (arith, e, length-terminate guard))
is_set-from_random guard (some r) e fits =
    let now = after_read guard r in
    let whole = length-after_read guard r e fits in
    let ended : (is_set (terminate now) ≡ true) × (length (terminate now) ≡ guard_size) =
      (is_set-terminate now (omega (arith, whole)), omega (arith, whole, length-terminate now)) in
    elim (Bool-cases (is_full r && is_set now)) [
      | inl good ↦ rw good (set_of (is_full r) (is_set now) good, whole)
      | inr bad ↦ rw bad ended
    ]
  where
    set_of : (p q : Bool) → (p && q) ≡ true → q ≡ true
    set_of true q h = h
    set_of false q h = ground (arith, h)

-- Where no other library has a guard, the guard that the set-up leaves has its 64 bytes and a first
-- word that is not zero, whatever could be read of random bytes, if the read stores no more bytes
-- than were asked for. A guard that was set is kept.
pub guard_setup-is_set :
    (guard : List ℕ) (random : Option ReadResult)
    → length guard ≡ guard_size
    → Fits random
    → (is_set (guard_setup none random guard) ≡ true)
      × (length (guard_setup none random guard) ≡ guard_size)
      × ((is_set guard ≡ false) ⊎ (guard_setup none random guard ≡ guard))
unfolding guard_setup
guard_setup-is_set guard random e fits = elim (Bool-cases (is_set guard)) [
  | inl there ↦ rw there (there, e, inr refl)
  | inr missing ↦ let (a, b) = is_set-from_random guard random e fits in rw missing (a, b, inl refl)
]
