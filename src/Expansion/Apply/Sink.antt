-- ===== src/Expansion/Apply/Sink.antt =====
-- What `RKApplyReferenceInstructions` needs of the buffer of pieces: that the bytes of a piece that
-- it accepts come behind the bytes that it holds.
use regexkit.Base.{ℕ, ◌≡◌, Option, some, List, ◌++◌}

pub record CopySink (B : Type 0) : Type 0 where
  pub append : B → List ℕ → Option B
  pub contents : B → List ℕ
  pub contents-append : (b c : B) (t : List ℕ) → append b t ≡ some c → contents c ≡ contents b ++ t
