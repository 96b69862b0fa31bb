-- ===== src/Tests/CollectionRuns.antt =====
-- The array actions of Source/NSArray.m at small inputs. The matcher stands for a regex that matches
-- the numbers above 5.
use regexkit.Base.{ℕ, ltb, arith, Bool, List, [], ◌∷◌}
use regexkit.Foundation.{make_range}
use regexkit.Collections.ArrayActions.Scan.{Fits}

abbrev above_five : ℕ → Bool
above_five n = ltb 5 n

abbrev numbers : List ℕ
numbers = 1 ∷ 9 ∷ 2 ∷ 8 ∷ 7 ∷ []

numbers-Fits : Fits (make_range 1 3) numbers
numbers-Fits = record { inside = omega arith; small = omega arith }
