-- ===== src/Tests/CopyRuns.antt =====
-- The copy buffer of Source/NSString.m: the theorems at small inputs.
use regexkit.Base.{ℕ, some, inl, refl, [], ◌∷◌, ◌≡◌, true, arith, false, set, replicate, List}
use regexkit.Foundation.{NsRange, make_range}
use regexkit.Expansion.Apply.{c_string}
use regexkit.Expansion.Copy.{
  copied_bytes, Memory, CopyBuffer, CopyInstruction, append_copy, read, string_from_copy,
  empty_copy, follows, evaluate_loop,
}
use regexkit.Expansion.Copy.Pieces.{total}
use regexkit.Expansion.Copy.Append.{IsValid, string_from_copy-append_copy}
use regexkit.Expansion.Copy.Limit.{
  append_all, named, string_from_copy-append_all, string_from_copy-append_copy_full,
}

-- Every address holds its own number.
abbrev identity : Memory
identity a = a

abbrev garbage : List CopyInstruction
garbage = replicate 64 (record { ptr = 1; length = 1 })

-- One piece, "10 11 12", on the stack.
abbrev one_piece : CopyBuffer
one_piece = record {
  length = 1;
  capacity = 64;
  copied_length = 3;
  instructions = set garbage 0 (record { ptr = 10; length = 3 });
  on_heap = false;
  is_valid = true;
}

one_piece-IsValid : IsValid one_piece
unfolding total
one_piece-IsValid = omega arith

string_from_copy-append_copy_example :
    ((append_copy false one_piece 11 (make_range 2 2)).1 ≡ true)
    × IsValid (append_copy false one_piece 11 (make_range 2 2)).0
    × (copied_bytes identity (append_copy false one_piece 11 (make_range 2 2)).0
        ≡ 10 ∷ 11 ∷ 12 ∷ 13 ∷ 14 ∷ [])
    × (string_from_copy identity true (append_copy false one_piece 11 (make_range 2 2)).0
        ≡ some (10 ∷ 11 ∷ 12 ∷ 13 ∷ 14 ∷ []))
unfolding copied_bytes read evaluate_loop c_string
string_from_copy-append_copy_example =
    string_from_copy-append_copy identity false true one_piece 11 (make_range 2 2) one_piece-IsValid
      (inl (omega arith))

abbrev three_calls : List (ℕ × NsRange)
three_calls = (10, make_range 0 2) ∷ (10, make_range 2 1) ∷ (5, make_range 0 1) ∷ []

string_from_copy-append_all_example :
    (copied_bytes identity (append_all false (empty_copy garbage) three_calls)
      ≡ 10 ∷ 11 ∷ 12 ∷ 5 ∷ [])
    × (string_from_copy identity true (append_all false (empty_copy garbage) three_calls)
        ≡ some (10 ∷ 11 ∷ 12 ∷ 5 ∷ []))
unfolding named read c_string
string_from_copy-append_all_example =
    string_from_copy-append_all identity false true garbage three_calls refl (omega arith)

-- A full stack array: 64 pieces of one byte.
abbrev full_stack : CopyBuffer
full_stack = record {
  length = 64;
  capacity = 64;
  copied_length = 64;
  instructions = garbage;
  on_heap = false;
  is_valid = true;
}

string_from_copy-append_copy_full_example :
    (copied_bytes identity (append_copy true full_stack 7 (make_range 0 2)).0 ≡ 7 ∷ 8 ∷ [])
    × (string_from_copy identity true (append_copy true full_stack 7 (make_range 0 2)).0
        ≡ some (7 ∷ 8 ∷ []))
unfolding read follows c_string
string_from_copy-append_copy_full_example =
    string_from_copy-append_copy_full identity full_stack 7 (make_range 0 2) refl refl (omega arith)
      refl
