-- ===== src/Expansion/Copy/Limit.antt =====
-- The copy buffer over a whole run: exact for the 64 instructions that the stack array holds, and
-- what happens when the array moves to the heap.
use Prim.Native.Nat.{suc}
use Prim.Native.Nat.add
use regexkit.Base.{
  none, if◌then◌else◌, length-replicate, length-append, ◌==◌, append_assoc, zero, refl, inl, ◌∷◌,
  ltb, ap, [], some, take, ◌∙◌, replicate, append-nil, sym, arith, ◌++◌, ◌≤◌, true, length, false,
  ◌<◌, Bool, ◌≡◌, ℕ, ◌+◌, List,
}
use regexkit.Expansion.Apply.{c_string}
use regexkit.Foundation.{NsRange}
use regexkit.Expansion.Buffer.{stack_instructions, grow}
use regexkit.Expansion.Copy.{
  evaluate_loop, Memory, CopyInstruction, CopyBuffer, null_copy, empty_copy, follows, extend_last,
  make_room, store_copy, append_copy, read, copied_bytes, string_from_copy,
}
use regexkit.Expansion.Copy.Pieces.{
  pieces, total, pieces-append, pieces-single, total-append, total-single, evaluate_loop_lem,
}
use regexkit.Expansion.Copy.Append.{used-store_copy, used, IsValid, copied_bytes-append_copy}

-- A client's calls, one behind the other: a pointer and a range for each.
pub append_all : Bool → CopyBuffer → List (ℕ × NsRange) → CopyBuffer
append_all memory b [] = b
append_all memory b ((ptr, range) ∷ rest) =
    append_all memory (append_copy memory b ptr range).0 rest

-- The bytes that the calls name.
unfoldable pub named : Memory → List (ℕ × NsRange) → List ℕ
named mem [] = []
named mem ((ptr, range) ∷ rest) = read mem (ptr + range.location) range.length ++ named mem rest

-- One call takes one instruction at most.
append_copy-size :
    (memory : Bool) (b : CopyBuffer) (ptr : ℕ) (range : NsRange)
    → b.length < b.capacity
    → let b' = (append_copy memory b ptr range).0 in
      (b'.length ≤ b.length + 1) × (b'.capacity ≡ b.capacity)
unfolding append_copy make_room store_copy extend_last
append_copy-size memory b ptr range h = ground arith

append_all-string :
    (mem : Memory) (memory : Bool) (b : CopyBuffer) (calls : List (ℕ × NsRange))
    → IsValid b
    → b.length + length calls ≤ b.capacity
    → copied_bytes mem (append_all memory b calls) ≡ copied_bytes mem b ++ named mem calls
unfolding append_all named
append_all-string mem memory b [] v h = sym (append-nil (copied_bytes mem b))
append_all-string mem memory b ((ptr, range) ∷ rest) v h =
    let one = copied_bytes-append_copy mem memory b ptr range v (inl (omega arith)) in
    let size = append_copy-size memory b ptr range (omega arith) in
    append_all-string mem memory (append_copy memory b ptr range).0 rest one.1 (omega (arith, size))
    ∙ ap (λ bytes. bytes ++ named mem rest) one.2
    ∙ append_assoc (copied_bytes mem b) (read mem (ptr + range.location) range.length)
        (named mem rest)

empty_copy-IsValid :
    (garbage : List CopyInstruction)
    → length garbage ≡ stack_instructions
    → IsValid (empty_copy garbage)
unfolding empty_copy total
empty_copy-IsValid garbage h = omega arith

empty-string :
    (mem : Memory) (garbage : List CopyInstruction) → copied_bytes mem (empty_copy garbage) ≡ []
unfolding copied_bytes empty_copy evaluate_loop
empty-string mem garbage = refl

copied_bytes-append_all :
    (mem : Memory) (memory : Bool) (garbage : List CopyInstruction) (calls : List (ℕ × NsRange))
    → length garbage ≡ stack_instructions
    → length calls ≤ stack_instructions
    → copied_bytes mem (append_all memory (empty_copy garbage) calls) ≡ named mem calls
copied_bytes-append_all mem memory garbage calls h few =
    append_all-string mem memory (empty_copy garbage) calls (empty_copy-IsValid garbage h)
      (unfold empty_copy in omega (arith, few))
    ∙ ap (λ bytes. bytes ++ named mem calls) (empty-string mem garbage)

pieces-replicate : (mem : Memory) (k : ℕ) → pieces mem (replicate k null_copy) ≡ []
unfolding pieces read
pieces-replicate mem zero = refl
pieces-replicate mem (suc k) = pieces-replicate mem k

total-replicate : (k : ℕ) → total (replicate k null_copy) ≡ 0
unfolding total
total-replicate zero = refl
total-replicate (suc k) = omega (arith, total-replicate k)

take-replicate :
    (k m : ℕ) (ys : List CopyInstruction)
    → take k (replicate (k + m) null_copy ++ ys) ≡ replicate k null_copy
take-replicate zero m ys = refl
take-replicate (suc k) m ys = rw (add.suc k m) (ap (λ zs. null_copy ∷ zs) (take-replicate k m ys))

made_room :
    (b : CopyBuffer)
    → b.on_heap ≡ false
    → b.length ≡ b.capacity
    → make_room true b
      ≡ some (record b {
        instructions =
            replicate (b.capacity + stack_instructions) null_copy ++ take b.capacity b.instructions;
        capacity = b.capacity + stack_instructions;
        on_heap = true;
      })
unfolding make_room grow
made_room b stack full =
    let no_room : ltb b.length b.capacity ≡ false = ground arith in rw (no_room, stack)

moved_string :
    (mem : Memory) (b : CopyBuffer) (start n k : ℕ)
    → used (store_copy b start n) ≡ replicate k null_copy ++ record { ptr = start; length = n } ∷ []
    → copied_bytes mem (store_copy b start n) ≡ read mem start n
unfolding copied_bytes
moved_string mem b start n k e =
    let new : CopyInstruction = record { ptr = start; length = n } in
    evaluate_loop_lem mem ((store_copy b start n).copied_length + 1) 0 (used (store_copy b start n))
      (unfold store_copy in
        omega (
          arith,
          ap total e,
          total-append (replicate k null_copy) (new ∷ []),
          total-replicate k,
          total-single new,
        ))
    ∙ ap (pieces mem) e
    ∙ pieces-append mem (replicate k null_copy) (new ∷ [])
    ∙ rw (pieces-replicate mem k) (pieces-single mem new)

copied_bytes-append_copy_full :
    (mem : Memory) (b : CopyBuffer) (ptr : ℕ) (range : NsRange)
    → b.on_heap ≡ false
    → b.length ≡ b.capacity
    → 0 < range.length
    → follows b (ptr + range.location) ≡ false
    → copied_bytes mem (append_copy true b ptr range).0
      ≡ read mem (ptr + range.location) range.length
unfolding append_copy
copied_bytes-append_copy_full mem b ptr range stack full some_left apart =
    let start = ptr + range.location in
    let n = range.length in
    let new : CopyInstruction = record { ptr = start; length = n } in
    let positive : (n == 0) ≡ false = ground arith in
    let zeros = replicate (b.capacity + stack_instructions) null_copy in
    let moved : CopyBuffer = record b {
      instructions = zeros ++ take b.capacity b.instructions;
      capacity = b.capacity + stack_instructions;
      on_heap = true;
    } in
    let made : make_room true b ≡ some moved = made_room b stack full in
    let lost : used moved ≡ replicate b.length null_copy =
      rw (← full) (take-replicate b.length stack_instructions (take b.length b.instructions)) in
    let stored : used (store_copy moved start n) ≡ replicate b.length null_copy ++ new ∷ [] =
      used-store_copy moved start n (
        omega (
          arith,
          length-append zeros (take b.capacity b.instructions),
          length-replicate (b.capacity + stack_instructions) null_copy,
        ))
      ∙ ap (λ is. is ++ new ∷ []) lost in
    let result : append_copy true b ptr range ≡ (store_copy moved start n, true) =
      (rw (positive, apart, append_copy, made)) in
    rw result (moved_string mem moved start n b.length stored)

-- Up to 64 calls on an empty buffer, of any pointers and ranges, give exactly the bytes that they
-- name, in their order, whatever the stack array held before. The string is that of these bytes up
-- to the first NUL, or `NULL` where there is no memory for it.
pub string_from_copy-append_all :
    (mem : Memory) (memory allocated : Bool) (garbage : List CopyInstruction)
    (calls : List (ℕ × NsRange))
    → length garbage ≡ stack_instructions
    → length calls ≤ stack_instructions
    → (copied_bytes mem (append_all memory (empty_copy garbage) calls) ≡ named mem calls)
      × (string_from_copy mem allocated (append_all memory (empty_copy garbage) calls)
          ≡ (if allocated then some (c_string (named mem calls)) else none))
unfolding string_from_copy
string_from_copy-append_all mem memory allocated garbage calls h few =
    let same = copied_bytes-append_all mem memory garbage calls h few in
    (same, ap (λ bytes. if allocated then some (c_string bytes) else none) same)

-- When a stack array is full, the next piece of its own moves it to the heap, and the bytes that
-- were there are lost: the string is then that piece alone, up to its first NUL.
pub string_from_copy-append_copy_full :
    (mem : Memory) (b : CopyBuffer) (ptr : ℕ) (range : NsRange)
    → b.on_heap ≡ false
    → b.length ≡ b.capacity
    → 0 < range.length
    → follows b (ptr + range.location) ≡ false
    → (copied_bytes mem (append_copy true b ptr range).0
        ≡ read mem (ptr + range.location) range.length)
      × (string_from_copy mem true (append_copy true b ptr range).0
          ≡ some (c_string (read mem (ptr + range.location) range.length)))
unfolding string_from_copy
string_from_copy-append_copy_full mem b ptr range stack full some_left apart =
    let same = copied_bytes-append_copy_full mem b ptr range stack full some_left apart in
    (same, ap (λ bytes. some (c_string bytes)) same)
