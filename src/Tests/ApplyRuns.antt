-- ===== src/Tests/ApplyRuns.antt =====
-- The application of compiled instructions in Source/NSString.m at small inputs. The buffer is the
-- list of its bytes, and the case conversion that of ASCII letters.
use regexkit.Base.{
  internal_inconsistency, raise, ok, false, true, ℕ, ◌+◌, ◌-◌, ◌≡◌, refl, leb, ◌&&◌, if◌then◌else◌,
  map, some, List, [], ◌∷◌, ◌++◌, some-injective, sym,
}
use regexkit.Expansion.Apply.{
  LetterCase, upper, lower, Captures, Instruction, copy_range, copy_capture_index,
  copy_capture_name, convert_next, convert_from, convert_end, stop, apply_reference_instructions,
}
use regexkit.Expansion.Apply.Sink.{CopySink}
use regexkit.Expansion.Apply.EmptyPiece.{apply_reference_instructions-empty}

abbrev list_sink : CopySink (List ℕ)
list_sink = record {
  append = λ b t. some (b ++ t);
  contents = λ b. b;
  contents-append = λ b c t e. sym (some-injective (b ++ t) c e);
}

abbrev ascii_convert : LetterCase → List ℕ → List ℕ
ascii_convert upper = map (λ c. if leb 97 c && leb c 122 then c - 32 else c)
ascii_convert lower = map (λ c. if leb 65 c && leb c 90 then c + 32 else c)

-- The match of "xy" with the first capture "ab" and the second one empty.
abbrev captures : Captures
captures = record {
  texts = (120 ∷ 121 ∷ []) ∷ (97 ∷ 98 ∷ []) ∷ [] ∷ [];
  index_of_name = λ name. some 1;
}

-- "\u$0-\U${name}c\E"
abbrev instructions : List Instruction
instructions =
    convert_next upper
    ∷ copy_capture_index 0
    ∷ copy_range (45 ∷ [])
    ∷ convert_from upper
    ∷ copy_capture_name (110 ∷ [])
    ∷ copy_range (99 ∷ [])
    ∷ convert_end
    ∷ stop
    ∷ []

-- "\Ua$2b\E" gives "b".
apply_reference_instructions-empty_example :
    (apply_reference_instructions list_sink ascii_convert false captures
        (convert_from upper
          ∷ copy_range (97 ∷ [])
          ∷ copy_capture_index 2
          ∷ copy_range (98 ∷ [])
          ∷ convert_end
          ∷ stop
          ∷ [])
        []
      ≡ ok (some (98 ∷ [])))
    × (apply_reference_instructions list_sink ascii_convert true captures
          (convert_from upper
            ∷ copy_range (97 ∷ [])
            ∷ copy_capture_index 2
            ∷ copy_range (98 ∷ [])
            ∷ convert_end
            ∷ stop
            ∷ [])
          []
        ≡ raise internal_inconsistency)
    × (list_sink.contents (98 ∷ []) ≡ [] ++ 98 ∷ [])
apply_reference_instructions-empty_example =
    apply_reference_instructions-empty list_sink ascii_convert captures upper 2 97 98 [] [] []
      (98 ∷ []) refl refl
