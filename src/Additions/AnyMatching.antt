-- ===== src/Additions/AnyMatching.antt =====
-- The regexes of a list, by the answer of a search for the index of one that matches.
use regexkit.Base.{
  ℕ, zero, suc, ◌≡◌, ◌<◌, refl, sym, arith, Bool, true, false, not, Option, some, some-injective,
  List, [], ◌∷◌, length, get_elem?,
}
use regexkit.Additions.ObjectsHeader.{any, IsAnyMatching, chosen, unmatched}
use regexkit.Additions.Objects.{regex_at, test_at}
use regexkit.Sorted.{is_none}
use regexkit.Sorted.Right
use regexkit.Sorted.Right.{IsRight}

module _ {R : Type 0} (test : R → Bool) where
  pub element_there : (rs : List R) (i : ℕ) → i < length rs → (r : R) × (get_elem? rs i ≡ some r)
  element_there [] i e = absurd (omega (arith, e))
  element_there (r ∷ rs) zero e = (r, refl)
  element_there (r ∷ rs) (suc i) e = element_there rs i (omega (arith, e))

  any-true :
      (rs : List R) (i : ℕ) (r : R) → get_elem? rs i ≡ some r → test r ≡ true → any test rs ≡ true
  any-true [] i r e m = absurd (ground (arith, e))
  any-true (s ∷ rs) zero r e m = rw (some-injective _ _ e, m) refl
  any-true (s ∷ rs) (suc i) r e m = let rest = any-true rs i r e m in ground (arith, rest)

  any-false :
      (rs : List R) → ((i : ℕ) → i < length rs → test_at test rs i ≡ false) → any test rs ≡ false
  any-false [] h = refl
  any-false (r ∷ rs) h =
      let rest = any-false rs (λ i e. h (suc i) (omega (arith, e))) in
      let here = h 0 (omega arith) in rw (here, rest) refl

  pub right-IsAnyMatching :
      (rs : List R) (answer : Option ℕ)
      → IsRight (length rs) (test_at test rs) answer
      → IsAnyMatching test rs (regex_at rs answer)
  right-IsAnyMatching rs answer (Right.matching i e m) =
      let (r, f) = element_there rs i e in rw f (chosen i r f (rw (f, test_at) at m))
  right-IsAnyMatching rs answer (Right.unmatched h) = unmatched (any-false rs h)

  pub found-any :
      (rs : List R) (r : Option R) → IsAnyMatching test rs r → not (is_none r) ≡ any test rs
  found-any rs r (chosen i s e m) = sym (any-true rs i s e m)
  found-any rs r (unmatched h) = sym h
