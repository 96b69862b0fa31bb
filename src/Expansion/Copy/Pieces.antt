-- ===== src/Expansion/Copy/Pieces.antt =====
-- The bytes that a list of copy instructions stands for, and that the evaluation writes them all.
use Prim.Native.Nat.add
use native.Mathlib.Numerals.{one-add}
use native.Mathlib.Nat.{add-zero, zero-add, add_assoc}
use regexkit.Base.{
  zero, suc, append-nil, refl, append_assoc, sym, [], arith, ◌∷◌, ◌≤◌, ◌++◌, ◌≡◌, ℕ, ◌+◌, List,
}
use regexkit.Expansion.Copy.{Memory, CopyInstruction, read, evaluate_loop}

unfoldable pub pieces : Memory → List CopyInstruction → List ℕ
pieces mem [] = []
pieces mem (i ∷ is) = read mem i.ptr i.length ++ pieces mem is

unfoldable pub total : List CopyInstruction → ℕ
total [] = 0
total (i ∷ is) = i.length + total is

pub pieces-append :
    (mem : Memory) (is js : List CopyInstruction)
    → pieces mem (is ++ js) ≡ pieces mem is ++ pieces mem js
unfolding pieces
pieces-append mem [] js = refl
pieces-append mem (i ∷ is) js =
    rw (pieces-append mem is js)
      (sym (append_assoc (read mem i.ptr i.length) (pieces mem is) (pieces mem js)))

pub pieces-single :
    (mem : Memory) (i : CopyInstruction) → pieces mem (i ∷ []) ≡ read mem i.ptr i.length
unfolding pieces
pieces-single mem i = append-nil (read mem i.ptr i.length)

pub total-append : (is js : List CopyInstruction) → total (is ++ js) ≡ total is + total js
unfolding total
total-append [] js = omega arith
total-append (i ∷ is) js = omega (arith, total-append is js)

pub total-single : (i : CopyInstruction) → total (i ∷ []) ≡ i.length
unfolding total
total-single i = omega arith

-- Adjacent pieces are one piece.
pub read-add : (mem : Memory) (p a b : ℕ) → read mem p (a + b) ≡ read mem p a ++ read mem (p + a) b
unfolding read
read-add mem p zero b = rw (zero-add b, add-zero p)
read-add mem p (suc a) b =
    rw (add.suc a b, read, read-add mem (p + 1) a b, add_assoc p 1 a, one-add a)

pub evaluate_loop_lem :
    (mem : Memory) (limit at : ℕ) (is : List CopyInstruction)
    → at + total is ≤ limit
    → evaluate_loop mem limit at is ≡ pieces mem is
unfolding evaluate_loop pieces total
evaluate_loop_lem mem limit at [] h = refl
evaluate_loop_lem mem limit at (i ∷ is) h =
    ground (arith, evaluate_loop_lem mem limit (at + i.length) is)
