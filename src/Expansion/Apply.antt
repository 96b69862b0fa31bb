-- ===== src/Expansion/Apply.antt =====
-- `RKApplyReferenceInstructions` of Source/NSString.m: the compiled instructions of a reference
-- string are applied to the captures of a match. The pieces that result go to a `CopySink`, which
-- stands for the copy buffer. The case conversions of Foundation and the search of a capture name
-- are parameters. Texts are lists of UTF-8 bytes, in whole characters.
pub mod Sink
pub mod Meaning
pub mod Refinement
pub mod EmptyPiece
use regexkit.Base.{
  internal_inconsistency, bad_access, raise, length, ok, Outcome, ltb, ℕ, Bool, true, false, not,
  ◌&&◌, ◌||◌, Option, some, none, List, [], ◌∷◌, ◌++◌, take, drop, if◌then◌else◌, ◌==◌, get_or,
}
use regexkit.Unicode.{length_of_utf8_character}
use Sink.{CopySink}

pub data LetterCase : Type 0 where
  upper lower : LetterCase

-- The operations that `currentOp` and `thisOp` hold: 0, `OP_UPPERCASE_NEXT_CHAR` and
-- `OP_LOWERCASE_NEXT_CHAR`, `OP_UPPERCASE_BEGIN` and `OP_LOWERCASE_BEGIN`, `OP_CHANGE_CASE_END`.
pub data Op : Type 0 where
  no_op : Op
  next_char begin : LetterCase → Op
  change_case_end : Op

-- `RKReferenceInstruction`. A range is given by the bytes that it names, a name by its bytes.
pub data Instruction : Type 0 where
  copy_range : List ℕ → Instruction
  copy_capture_index : ℕ → Instruction
  copy_capture_name : List ℕ → Instruction
  convert_next convert_from : LetterCase → Instruction
  convert_end : Instruction
  stop : Instruction

abbrev pub is_no_op : Op → Bool
is_no_op no_op = true
is_no_op (next_char c) = false
is_no_op (begin c) = false
is_no_op change_case_end = false

abbrev pub is_next_char : Op → Bool
is_next_char no_op = false
is_next_char (next_char c) = true
is_next_char (begin c) = false
is_next_char change_case_end = false

abbrev pub is_begin : Op → Bool
is_begin no_op = false
is_begin (next_char c) = false
is_begin (begin c) = true
is_begin change_case_end = false

abbrev pub is_end : Op → Bool
is_end no_op = false
is_end (next_char c) = false
is_end (begin c) = false
is_end change_case_end = true

abbrev pub same_case : LetterCase → LetterCase → Bool
same_case upper upper = true
same_case upper lower = false
same_case lower upper = false
same_case lower lower = true

-- `thisOp == currentOp`, where `currentOp` begins a conversion.
abbrev pub same_begin : Op → Op → Bool
same_begin (begin c) (begin d) = same_case c d
same_begin (begin c) no_op = false
same_begin (begin c) (next_char d) = false
same_begin (begin c) change_case_end = false
same_begin no_op op = false
same_begin (next_char c) op = false
same_begin change_case_end op = false

abbrev pub case_of : Op → LetterCase
case_of no_op = lower
case_of (next_char c) = c
case_of (begin c) = c
case_of change_case_end = lower

abbrev pub is_empty : List ℕ → Bool
is_empty [] = true
is_empty (x ∷ xs) = false

-- What `strlen` sees of a text: the bytes in front of the first NUL.
unfoldable pub c_string : List ℕ → List ℕ
c_string [] = []
c_string (x ∷ xs) = let rest = c_string xs in if x == 0 then [] else x ∷ rest

unfoldable pub op_of : Instruction → Op
op_of (copy_range t) = no_op
op_of (copy_capture_index n) = no_op
op_of (copy_capture_name name) = no_op
op_of (convert_next c) = next_char c
op_of (convert_from c) = begin c
op_of convert_end = change_case_end
op_of stop = no_op

abbrev pub is_stop : Instruction → Bool
is_stop (copy_range t) = false
is_stop (copy_capture_index n) = false
is_stop (copy_capture_name name) = false
is_stop (convert_next c) = false
is_stop (convert_from c) = false
is_stop convert_end = false
is_stop stop = true

-- A match: the bytes of each capture, none where it did not take part, and the search of names.
pub record Captures : Type 0 where
  pub texts : List (List ℕ)
  pub index_of_name : List ℕ → Option ℕ

-- The bytes at `fromPtr` and `fromRange`.
unfoldable pub text_of : Captures → Instruction → List ℕ
text_of m (copy_range t) = t
text_of m (copy_capture_index n) = get_or m.texts n []
text_of m (copy_capture_name name) = elim (m.index_of_name name) [
  | none ↦ []
  | some n ↦ get_or m.texts n []
]
text_of m (convert_next c) = []
text_of m (convert_from c) = []
text_of m convert_end = []
text_of m stop = []

module _ {B : Type 0} (S : CopySink B) (convert : LetterCase → List ℕ → List ℕ) where
  -- `currentOp`, `conversionString` and the buffer.
  pub record Applying : Type 0 where
    pub current : Op
    pub conversion : List ℕ
    pub applied : B
    pub overrun : Bool  -- whether bytes behind a piece were read

  unfoldable pub set_applied : Applying → Option B → Option Applying
  set_applied s none = none
  set_applied s (some b) = some (record s { applied = b })

  -- The end of a conversion: what was collected is converted and appended.
  unfoldable pub flush : Applying → Option Applying
  flush s =
      if is_empty s.conversion
      then some (record s { current = no_op })
      else set_applied (record s { current = no_op; conversion = [] })
          (S.append s.applied (c_string (convert (case_of s.current) s.conversion)))

  unfoldable pub append_rest : List ℕ → Option B → Option B
  append_rest rest none = none
  append_rest rest (some b) = S.append b rest

  -- The first character of a piece is converted, the rest is copied as it is. In a piece that is
  -- shorter than its first byte says, bytes behind it are read and the length of the rest wraps around.
  unfoldable pub convert_first : Applying → List ℕ → Option Applying
  convert_first s text =
      let n = length_of_utf8_character (get_or text 0 0) in
      if ltb (length text) n
      then some (record s { current = no_op; overrun = true })
      else set_applied (record s { current = no_op })
          (append_rest (drop n text)
            (S.append s.applied (c_string (convert (case_of s.current) (take n text)))))

  unfoldable pub then_set : Op → Option Applying → Option Applying
  then_set op none = none
  then_set op (some s) = if is_end op then some s else some (record s { current = op })

  -- One turn of the loop, for an instruction of the operation `this` and the given piece; `last`
  -- says that it is `OP_STOP`.
  unfoldable pub turn : Op → List ℕ → Bool → Applying → Option Applying
  turn this text last s =
      if is_no_op s.current && is_end this
      then some s
      else if is_end this
          && ((is_next_char s.current || is_begin s.current) && is_empty s.conversion)
      then some (record s { current = no_op })
      else if is_no_op s.current && (is_no_op this && not (is_empty text))
      then set_applied s (S.append s.applied text)
      else if is_begin s.current && (is_no_op this && not (is_empty text))
      then some (record s { conversion = s.conversion ++ text })
      else if is_begin s.current
          && (not (same_begin s.current this) && (not (is_no_op this) || last))
      then then_set this (flush s)
      else if is_next_char s.current && (is_no_op this && not (is_empty text))
      then convert_first s text
      else some (record s { current = this })

  unfoldable pub turns : Captures → List Instruction → Applying → Option Applying
  turns m [] s = some s
  turns m (i ∷ is) s = elim (turn (op_of i) (text_of m i) (is_stop i) s) [
    | none ↦ none
    | some next ↦ elim (is_stop i) [ true ↦ some next | false ↦ turns m is next ]
  ]

  -- Behind the loop, with the assertion on `conversionString` in builds that have assertions.
  abbrev pub conclude : Bool → Option Applying → Outcome (Option B)
  conclude asserts none = ok none
  conclude asserts (some s) =
      if s.overrun
      then raise bad_access
      else if asserts && not (is_empty s.conversion)
      then raise internal_inconsistency
      else ok (some s.applied)

  -- The whole function, on the buffer as it is; `none` is the result `NO`.
  pub apply_reference_instructions : Bool → Captures → List Instruction → B → Outcome (Option B)
  apply_reference_instructions asserts m is b =
      conclude asserts
        (turns m is (record { current = no_op; conversion = []; applied = b; overrun = false }))
