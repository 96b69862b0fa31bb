-- ===== src/Expansion/Copy/Append.antt =====
-- `RKAppendCopyInstruction` adds a piece to the string, and what the first move of the array to the
-- heap does to the pieces that are there.
use native.Mathlib.Numerals.{add-one}
use regexkit.Base.{
  none, if◌then◌else◌, length-replicate, length-append, refl, replicate, append-nil, inr, inl, ◌==◌,
  ltb, some, Bool-cases, Bool, take-append_le, ◌⊎◌, append_assoc, sym, length-set, true, take-set,
  take-suc, set, ◌∙◌, ap, suc, [], ◌∷◌, ◌++◌, arith, ◌-◌, length, ◌≤◌, ◌<◌, ◌≡◌, take, ℕ, ◌+◌, List,
}
use regexkit.Expansion.Apply.{c_string}
use regexkit.Foundation.{NsRange}
use regexkit.Expansion.Buffer.{stack_instructions, grow}
use regexkit.Expansion.Copy.{
  string_from_copy, Memory, CopyInstruction, CopyBuffer, null_copy, instruction_at, follows,
  extend_last, make_room, store_copy, append_copy, read, copied_bytes,
}
use regexkit.Expansion.Copy.Pieces.{
  pieces, total, pieces-append, pieces-single, total-append, total-single, read-add,
  evaluate_loop_lem,
}

abbrev pub used : CopyBuffer → List CopyInstruction
used b = take b.length b.instructions

pub record IsValid (b : CopyBuffer) : Type 0 where
  pub within : b.length ≤ b.capacity
  pub room : b.capacity ≤ length b.instructions
  pub counted : b.copied_length ≡ total (used b)

-- What holds of the buffer's string.
string-pieces :
    (mem : Memory) (b : CopyBuffer) → IsValid b → copied_bytes mem b ≡ pieces mem (used b)
unfolding copied_bytes
string-pieces mem b v =
    evaluate_loop_lem mem (b.copied_length + 1) 0 (used b) (omega (arith, v.counted))

-- The instructions in use, with the last one apart.
used-last :
    (b : CopyBuffer)
    → IsValid b
    → 0 < b.length
    → used b
      ≡ take (b.length - 1) b.instructions ++ instruction_at b.instructions (b.length - 1) ∷ []
used-last b v h =
    let e : b.length ≡ suc (b.length - 1) = omega arith in
    ap (λ n. take n b.instructions) e
    ∙ take-suc (b.length - 1) b.instructions null_copy (omega (arith, v.within, v.room))

used-extend_last :
    (b : CopyBuffer) (n : ℕ)
    → IsValid b
    → 0 < b.length
    → let last = instruction_at b.instructions (b.length - 1) in
      used (extend_last b n)
      ≡ take (b.length - 1) b.instructions ++ record last { length = last.length + n } ∷ []
unfolding extend_last
used-extend_last b n v h =
    let e : b.length ≡ suc (b.length - 1) = omega arith in
    let last = instruction_at b.instructions (b.length - 1) in
    let longer : CopyInstruction = record last { length = last.length + n } in
    ap (λ k. take k (set b.instructions (b.length - 1) longer)) e
    ∙ take-set (b.length - 1) b.instructions longer (omega (arith, v.within, v.room))

pub used-store_copy :
    (b : CopyBuffer) (start n : ℕ)
    → b.length < length b.instructions
    → used (store_copy b start n) ≡ used b ++ record { ptr = start; length = n } ∷ []
unfolding store_copy
used-store_copy b start n h =
    rw add-one (take-set b.length b.instructions (record { ptr = start; length = n }) h)

-- `b'` is a valid buffer whose string is that of `b` with `n` bytes from `start` behind it.
abbrev Appends : Memory → CopyBuffer → ℕ → ℕ → CopyBuffer → Type 0
Appends mem b start n b' =
    IsValid b' × (pieces mem (used b') ≡ pieces mem (used b) ++ read mem start n)

join_last :
    (mem : Memory) (init : List CopyInstruction) (last : CopyInstruction) (start n : ℕ)
    → last.ptr + last.length ≡ start
    → pieces mem (init ++ record last { length = last.length + n } ∷ [])
      ≡ pieces mem (init ++ last ∷ []) ++ read mem start n
join_last mem init last start n e =
    let longer : CopyInstruction = record last { length = last.length + n } in
    rw
      (
        pieces-append mem init (longer ∷ []),
        pieces-append mem init (last ∷ []),
        pieces-single mem longer,
        pieces-single mem last,
        read-add mem last.ptr last.length n,
        e,
      )
      (sym (append_assoc (pieces mem init) (read mem last.ptr last.length) (read mem start n)))

follows-last :
    (b : CopyBuffer) (start : ℕ)
    → follows b start ≡ true
    → let last = instruction_at b.instructions (b.length - 1) in
      (0 < b.length) × (last.ptr + last.length ≡ start)
unfolding follows
follows-last b start f = ground arith

extend_last-IsValid :
    (b : CopyBuffer) (n : ℕ) → IsValid b → 0 < b.length → IsValid (extend_last b n)
extend_last-IsValid b n v h =
    let last = instruction_at b.instructions (b.length - 1) in
    let init = take (b.length - 1) b.instructions in
    let longer : CopyInstruction = record last { length = last.length + n } in
    record {
      within = unfold extend_last in v.within;
      room = unfold extend_last in rw (length-set b.instructions (b.length - 1) longer) v.room;
      counted =
          unfold extend_last in
          omega (
            arith,
            v.counted,
            ap total (used-last b v h),
            ap total (used-extend_last b n v h),
            total-append init (last ∷ []),
            total-append init (longer ∷ []),
            total-single last,
            total-single longer,
          );
    }

extend_last-Appends :
    (mem : Memory) (b : CopyBuffer) (start n : ℕ)
    → IsValid b
    → follows b start ≡ true
    → Appends mem b start n (extend_last b n)
extend_last-Appends mem b start n v f =
    let (some_left, e) = follows-last b start f in
    (
      extend_last-IsValid b n v some_left,
      rw (used-extend_last b n v some_left, used-last b v some_left)
          (join_last mem (take (b.length - 1) b.instructions)
            (instruction_at b.instructions (b.length - 1)) start n e),
    )

store_copy-Appends :
    (mem : Memory) (b : CopyBuffer) (start n : ℕ)
    → IsValid b
    → b.length < b.capacity
    → Appends mem b start n (store_copy b start n)
store_copy-Appends mem b start n v h =
    let new : CopyInstruction = record { ptr = start; length = n } in
    let stored = used-store_copy b start n (omega (arith, v.room)) in
    (
      record {
        within = unfold store_copy in omega arith;
        room = unfold store_copy in rw (length-set b.instructions b.length new) v.room;
        counted =
            unfold store_copy in
            omega (
              arith,
              v.counted,
              ap total stored,
              total-append (used b) (new ∷ []),
              total-single new,
            );
      },
      rw (stored, pieces-append mem (used b) (new ∷ []), pieces-single mem new),
    )

-- There is room for a piece, or the array is on the heap, where it grows and keeps its pieces.
abbrev pub CanGrow : CopyBuffer → Type 0
CanGrow b = (b.length < b.capacity) ⊎ (b.on_heap ≡ true)

on_heap-used :
    (b : CopyBuffer)
    → IsValid b
    → (xs : List CopyInstruction) → take b.length (b.instructions ++ xs) ≡ used b
on_heap-used b v xs = take-append_le b.length b.instructions xs (omega (arith, v.within, v.room))

make_room-keeps :
    (memory : Bool) (b : CopyBuffer)
    → IsValid b
    → CanGrow b
    → (r : CopyBuffer) × (make_room memory b ≡ some r)
      × IsValid r
      × (r.length < r.capacity)
      × (used r ≡ used b)
unfolding make_room grow
make_room-keeps memory b v can = elim (Bool-cases (ltb b.length b.capacity)) [
  | inl free ↦ (b, rw free, v, ground arith, refl)
  | inr full ↦
      let heap : b.on_heap ≡ true = ground arith in
      let zeros = replicate stack_instructions null_copy in
      let same = on_heap-used b v zeros in
      (
        record b {
          instructions = b.instructions ++ zeros;
          capacity = b.capacity + stack_instructions;
          on_heap = true;
        },
        rw (full, heap),
        record {
          within = omega (arith, v.within);
          room = omega (
            arith,
            length-append b.instructions zeros,
            length-replicate stack_instructions null_copy,
            v.room,
          );
          counted = rw same v.counted;
        },
        omega (arith, v.within),
        same,
      )
]

-- An appended piece shows in the string.
appended :
    (mem : Memory) (b b' : CopyBuffer) (start n : ℕ)
    → IsValid b
    → Appends mem b start n b'
    → IsValid b' × (copied_bytes mem b' ≡ copied_bytes mem b ++ read mem start n)
appended mem b b' start n v a = (a.0, rw (string-pieces mem b' a.0, string-pieces mem b v) a.1)

-- An instruction of its own.
stored-Appends :
    (mem : Memory) (b r : CopyBuffer) (start n : ℕ)
    → IsValid r
    → r.length < r.capacity
    → used r ≡ used b
    → Appends mem b start n (store_copy r start n)
stored-Appends mem b r start n v free same = rw (← same) (store_copy-Appends mem r start n v free)

-- The range of bytes shows behind those of the buffer.
pub copied_bytes-append_copy :
    (mem : Memory) (memory : Bool) (b : CopyBuffer) (ptr : ℕ) (range : NsRange)
    → IsValid b
    → CanGrow b
    → let (b', done) = append_copy memory b ptr range in
      (done ≡ true)
      × IsValid b'
      × (copied_bytes mem b' ≡ copied_bytes mem b ++ read mem (ptr + range.location) range.length)
unfolding append_copy read
copied_bytes-append_copy mem memory b ptr range v can =
    let start = ptr + range.location in
    let n = range.length in
    elim (Bool-cases (n == 0)) [
      | inl none_left ↦
          let e : n ≡ 0 = ground arith in
          rw none_left (refl, v, rw (e, read, append-nil (copied_bytes mem b)))
      | inr some_left ↦ elim (Bool-cases (follows b start)) [
        | inl next ↦
            let all =
              appended mem b (extend_last b n) start n v
                (extend_last-Appends mem b start n v next) in
            rw (some_left, next) (refl, all.0, all.1)
        | inr apart ↦
            let (r, made, valid, free, same) = make_room-keeps memory b v can in
            let all =
              appended mem b (store_copy r start n) start n v
                (stored-Appends mem b r start n valid free same) in
            rw (some_left, apart, made) (refl, all.0, all.1)
      ]
    ]

-- Appending a range of bytes to a valid buffer that has room or is on the heap succeeds, keeps the
-- buffer valid, and puts exactly the bytes of the range behind those that make up the string, whether
-- the range is empty, continues the last piece, or needs an instruction of its own. The string is
-- that of these bytes up to the first NUL, or `NULL` where there is no memory for it.
pub string_from_copy-append_copy :
    (mem : Memory) (memory allocated : Bool) (b : CopyBuffer) (ptr : ℕ) (range : NsRange)
    → IsValid b
    → CanGrow b
    → let (b', done) = append_copy memory b ptr range in
      let bytes = copied_bytes mem b ++ read mem (ptr + range.location) range.length in
      (done ≡ true)
      × IsValid b'
      × (copied_bytes mem b' ≡ bytes)
      × (string_from_copy mem allocated b' ≡ (if allocated then some (c_string bytes) else none))
unfolding string_from_copy
string_from_copy-append_copy mem memory allocated b ptr range v can =
    let (done, valid, same) = copied_bytes-append_copy mem memory b ptr range v can in
    (done, valid, same, ap (λ bytes. if allocated then some (c_string bytes) else none) same)
