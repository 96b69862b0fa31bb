-- ===== src/Expansion/Apply/Refinement.antt =====
-- `RKApplyReferenceInstructions` gives the meaning of the instructions where no piece is empty.
use regexkit.Base.{ℕ, true, false, Option, some, List, [], ◌∷◌, ◌++◌, ◌≡◌}
use regexkit.Expansion.Apply.{
  LetterCase, no_op, next_char, begin, Instruction, stop, Captures, is_empty, Applying,
}
use regexkit.Expansion.Apply.Sink.{CopySink}
use regexkit.Expansion.Apply.Meaning.{Mode, plain, first, span, item_of, is_broken_text}

-- Every piece of text has bytes, all those of its first character, and the instructions end with
-- `stop`.
pub data IsFilled (m : Captures) : List Instruction → Type 0 where
  at_stop : (is : List Instruction) → IsFilled m (stop ∷ is)
  filled :
      (i : Instruction) (is : List Instruction)
      → is_broken_text (item_of m i) ≡ false
      → IsFilled m is
      → IsFilled m (i ∷ is)

module _ {B : Type 0} (S : CopySink B) (convert : LetterCase → List ℕ → List ℕ)
    (always : (b : B) (t : List ℕ) → (c : B) × (S.append b t ≡ some c)) where
  state_of : Mode → B → Applying S convert
  state_of plain b = record { current = no_op; conversion = []; applied = b; overrun = false }
  state_of (first c) b = record {
    current = next_char c;
    conversion = [];
    applied = b;
    overrun = false;
  }
  state_of (span c acc) b = record {
    current = begin c;
    conversion = acc;
    applied = b;
    overrun = false;
  }

  -- A turn takes the state of one mode to that of another and appends a text.
  Turns : Option (Applying S convert) → B → Mode → List ℕ → Type 0
  Turns o b mode t = (c : B) × (o ≡ some (state_of mode c)) × (S.contents c ≡ S.contents b ++ t)

  -- The loop ends without an error, and a text was appended.
  abbrev Gives : Option (Applying S convert) → B → List ℕ → Type 0
  Gives o b t =
      (s : Applying S convert) × (o ≡ some s)
      × (S.contents s.applied ≡ S.contents b ++ t)
      × (s.overrun ≡ false)
      × (is_empty s.conversion ≡ true)
