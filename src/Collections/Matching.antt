-- ===== src/Collections/Matching.antt =====
-- The loop that the three collections share: the matched objects in order.
use regexkit.Base.{ℕ, suc, Bool, List, [], ◌∷◌, if◌then◌else◌}

module _ {A : Type 0} (is_matched : A → Bool) where
  -- The objects that are matched, in their order.
  abbrev pub select : List A → List A
  select [] = []
  select (x ∷ xs) = let rest = select xs in if is_matched x then x ∷ rest else rest

  -- The objects that are not.
  abbrev pub reject : List A → List A
  reject [] = []
  reject (x ∷ xs) = let rest = reject xs in if is_matched x then rest else x ∷ rest

  -- The indexes of the matched objects, counted from `i`.
  abbrev pub positions : ℕ → List A → List ℕ
  positions i [] = []
  positions i (x ∷ xs) = let rest = positions (suc i) xs in if is_matched x then i ∷ rest else rest
