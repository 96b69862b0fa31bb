-- ===== src/Expansion/Copy.antt =====
-- The buffer of pieces to copy: `RKAppendCopyInstruction`, `RKEvaluateCopyInstructions` and
-- `RKStringFromCopyInstructionsX` of Source/NSString.m. Memory is a function from addresses to
-- bytes, and a pointer an address.
pub mod Pieces
pub mod Append
pub mod Limit
use regexkit.Base.{
  none, ◌++◌, ◌||◌, ◌==◌, zero, some, leb, ◌&&◌, if◌then◌else◌, Option, true, suc, ltb, take, Bool,
  get_or, false, set, ◌∷◌, [], ℕ, ◌+◌, ◌-◌, List,
}
use regexkit.Expansion.Apply.{c_string}
use regexkit.Foundation.{NsRange}
use regexkit.Expansion.Buffer.{stack_instructions, grow}

abbrev pub Memory : Type 0
Memory = ℕ → ℕ

pub record CopyInstruction : Type 0 where
  pub ptr : ℕ
  pub length : ℕ

-- `on_heap` says that `mutableData` is not `NULL`.
pub record CopyBuffer : Type 0 where
  pub length : ℕ
  pub capacity : ℕ
  pub copied_length : ℕ
  pub instructions : List CopyInstruction
  pub on_heap : Bool
  pub is_valid : Bool

-- An instruction of zeros.
abbrev pub null_copy : CopyInstruction
null_copy = record { ptr = 0; length = 0 }

abbrev pub instruction_at : List CopyInstruction → ℕ → CopyInstruction
instruction_at is i = get_or is i null_copy

-- `RKMakeCopyInstructionsBuffer` over a stack array. What the array holds at first is never read.
pub empty_copy : List CopyInstruction → CopyBuffer
empty_copy garbage = record {
  length = 0;
  capacity = stack_instructions;
  copied_length = 0;
  instructions = garbage;
  on_heap = false;
  is_valid = true;
}

-- The piece starts where the last instruction's piece ends.
unfoldable pub follows : CopyBuffer → ℕ → Bool
follows b start =
    let last = instruction_at b.instructions (b.length - 1) in
    ltb 0 b.length && (last.ptr + last.length == start)

-- The last instruction takes the piece too.
pub extend_last : CopyBuffer → ℕ → CopyBuffer
extend_last b n =
    let last = instruction_at b.instructions (b.length - 1) in
    record b {
      instructions = set b.instructions (b.length - 1) (record last { length = last.length + n });
      copied_length = b.copied_length + n;
    }

-- Room for one more instruction; with no memory for the first move to the heap, none.
pub make_room : Bool → CopyBuffer → Option CopyBuffer
make_room memory b =
    if ltb b.length b.capacity
    then some b
    else if b.on_heap || memory
    then some (record b {
      instructions = grow null_copy b.on_heap b.capacity b.instructions;
      capacity = b.capacity + stack_instructions;
      on_heap = true;
    })
    else none

pub store_copy : CopyBuffer → ℕ → ℕ → CopyBuffer
store_copy b start n = record b {
  instructions = set b.instructions b.length (record { ptr = start; length = n });
  copied_length = b.copied_length + n;
  length = b.length + 1;
}

-- `RKAppendCopyInstruction`, with its result. `memory` says whether the allocator gives memory.
pub append_copy : Bool → CopyBuffer → ℕ → NsRange → CopyBuffer × Bool
append_copy memory b ptr range =
    if range.length == 0
    then (b, true)
    else if follows b (ptr + range.location)
    then (extend_last b range.length, true)
    else elim (make_room memory b) [
      | none ↦ (record b { is_valid = false }, false)
      | some room ↦ (store_copy room (ptr + range.location) range.length, true)
    ]

-- `length` bytes from an address on.
unfoldable pub read : Memory → ℕ → ℕ → List ℕ
read mem ptr zero = []
read mem ptr (suc n) = mem ptr ∷ read mem (ptr + 1) n

-- The loop of `RKEvaluateCopyInstructions`, over the instructions that are left: what it writes
-- from `at` on into a buffer of `limit` bytes.
unfoldable pub evaluate_loop : Memory → ℕ → ℕ → List CopyInstruction → List ℕ
evaluate_loop mem limit at [] = []
evaluate_loop mem limit at (i ∷ is) =
    let rest = evaluate_loop mem limit (at + i.length) is in
    if leb at limit then read mem i.ptr i.length ++ rest else []

-- The bytes that `RKEvaluateCopyInstructions` writes into the memory for the string, in front of the
-- terminating NUL.
unfoldable pub copied_bytes : Memory → CopyBuffer → List ℕ
copied_bytes mem b = evaluate_loop mem (b.copied_length + 1) 0 (take b.length b.instructions)

-- `RKStringFromCopyInstructionsX` of the build with CoreFoundation: the bytes of the string, which
-- `CFStringCreateWithCStringNoCopy` ends at the first NUL, or `NULL` where there is no memory.
unfoldable pub string_from_copy : Memory → Bool → CopyBuffer → Option (List ℕ)
string_from_copy mem allocated b = if allocated then some (c_string (copied_bytes mem b)) else none
