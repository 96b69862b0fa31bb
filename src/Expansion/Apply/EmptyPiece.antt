-- ===== src/Expansion/Apply/EmptyPiece.antt =====
-- What `RKApplyReferenceInstructions` does with an empty piece within a case conversion: a capture
-- that is empty or did not take part, as in "\Uabc$1def\E".
use regexkit.Base.{
  internal_inconsistency, raise, true, ok, false, ℕ, some, List, [], ◌∷◌, ◌++◌, ◌≡◌, refl, get_or,
}
use regexkit.Expansion.Apply.{
  LetterCase, no_op, begin, Captures, copy_range, copy_capture_index, convert_from, convert_end,
  stop, turn, turns, set_applied, text_of, op_of, apply_reference_instructions,
}
use regexkit.Expansion.Apply.Sink.{CopySink}

-- An empty capture ends the conversion that it stands in: where the buffer accepts the text behind
-- it, a build without assertions loses the text in front of it and copies that text without a
-- conversion, and a build with assertions raises for the text that is left in the conversion string.
pub apply_reference_instructions-empty :
    {B : Type 0} (S : CopySink B) (convert : LetterCase → List ℕ → List ℕ)
    → (m : Captures) (c : LetterCase) (n x y : ℕ) (xs ys : List ℕ) (b d : B)
    → get_or m.texts n [] ≡ []
    → S.append b (y ∷ ys) ≡ some d
    → (apply_reference_instructions S convert false m
          (convert_from c
            ∷ copy_range (x ∷ xs)
            ∷ copy_capture_index n
            ∷ copy_range (y ∷ ys)
            ∷ convert_end
            ∷ stop
            ∷ [])
          b
        ≡ ok (some d))
      × (apply_reference_instructions S convert true m
            (convert_from c
              ∷ copy_range (x ∷ xs)
              ∷ copy_capture_index n
              ∷ copy_range (y ∷ ys)
              ∷ convert_end
              ∷ stop
              ∷ [])
            b
          ≡ raise internal_inconsistency)
      × (S.contents d ≡ S.contents b ++ y ∷ ys)
unfolding apply_reference_instructions turns turn set_applied text_of op_of
apply_reference_instructions-empty S convert m c n x y xs ys b d empty accepted =
    let skipped : turn S convert no_op (get_or m.texts n []) false
          (record { current = begin c; conversion = x ∷ xs; applied = b; overrun = false })
        ≡ some (record { current = no_op; conversion = x ∷ xs; applied = b; overrun = false }) =
      rw empty refl in
    let copied : turn S convert no_op (y ∷ ys) false
          (record { current = no_op; conversion = x ∷ xs; applied = b; overrun = false })
        ≡ some (record { current = no_op; conversion = x ∷ xs; applied = d; overrun = false }) =
      rw accepted refl in
    (
      rw (skipped, turns, copied) refl,
      rw (skipped, turns, copied) refl,
      S.contents-append b d (y ∷ ys) accepted,
    )
