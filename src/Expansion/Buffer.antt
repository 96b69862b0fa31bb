-- ===== src/Expansion/Buffer.antt =====
-- What `RKAppendInstruction` and `RKAppendCopyInstruction` share: an array of instructions that
-- starts on the stack with room for 64 and moves to an `NSMutableData` when it is full.
use regexkit.Base.{if◌then◌else◌, Bool, ℕ, ◌+◌, List, ◌++◌, take, replicate}

-- `RK_DEFAULT_STACK_INSTRUCTIONS`
abbrev pub stack_instructions : ℕ
stack_instructions = 64

-- The array, once room was made in it. The first time, `dataWithLength:` gives zeros for the old
-- capacity and 64 more, and `appendBytes:length:` puts the old array behind them; from then on
-- `increaseLengthBy:` puts zeros behind the array.
unfoldable pub grow {ℓ} : {A : Type ℓ} → A → Bool → ℕ → List A → List A
grow null on_heap capacity xs =
    if on_heap
    then xs ++ replicate stack_instructions null
    else replicate (capacity + stack_instructions) null ++ take capacity xs
