-- ===== src/Regex/Conversion.antt =====
-- The conversion of vectors to ranges in place reads every vector before it is written over.
use regexkit.Base.{
  ℕ, zero, suc, ◌+◌, ◌-◌, ◌*◌, ◌%◌, ◌^◌, ◌≡◌, ◌⊎◌, ◌<◌, ◌≤◌, refl, sym, ◌∙◌, false, not, ◌&&◌, ltb,
  ◌==◌, ==_iff, Bool-cases, inl, inr, arith, ok,
}
use regexkit.Foundation.{NsRange, make_range, max_range, not_found}
use regexkit.Regex.{
  Memory, half, minus_one, extend, write_range, read_range, range_of, convert_at, convert_down,
  fill, MatchCode, results, after_exec, get_ranges, is_out_of_range,
}
use regexkit.Regex.Cells.{write_range-other, read_range-write_same, read_range-write_other}

-- What a vector of pcre says, and the range for it: the captured text, or that there is none.
pub data IsVectorOf (from to : ℕ) (r : NsRange) : Type 0 where
  unset : from ≡ minus_one → r ≡ make_range not_found 0 → IsVectorOf from to r
  set : from ≤ to → to < 2 ^ 31 → r ≡ make_range from (to - from) → IsVectorOf from to r

range_of-IsVectorOf : (from to : ℕ) (r : NsRange) → IsVectorOf from to r → range_of from to ≡ r
unfolding range_of
range_of-IsVectorOf from to r (unset e f) = rw (f, e) refl
range_of-IsVectorOf from to r (set le small e) =
    let other : (from == minus_one) ≡ false = ground arith in
    let start : extend from ≡ from = ground arith in
    let mid : (to + half - from) % half ≡ to - from = omega arith in
    let size : extend (to - from) ≡ to - from = ground arith in rw (e, other, start, mid, size) refl

convert_down-other :
    (x : ℕ) (m : Memory) (y : ℕ) → x < y → read_range (convert_down x m) y ≡ read_range m y
unfolding convert_down convert_at
convert_down-other zero m y lt = refl
convert_down-other (suc x) m y lt =
    convert_down-other x (convert_at m (suc x)) y (omega arith)
    ∙ read_range-write_other m (suc x) y _ (omega arith)

convert_at-cell : (m : Memory) (x j : ℕ) → j < 4 * x → convert_at m x j ≡ m j
unfolding convert_at
convert_at-cell m x j lt = write_range-other m x _ j (inl lt)

convert_down-cell : (x : ℕ) (m : Memory) (j : ℕ) → j < 4 → convert_down x m j ≡ m j
unfolding convert_down
convert_down-cell zero m j lt = refl
convert_down-cell (suc x) m j lt =
    convert_down-cell x (convert_at m (suc x)) j lt ∙ convert_at-cell m (suc x) j (omega arith)

convert_down-range :
    (x : ℕ) (m : Memory) (y : ℕ)
    → 0 < y
    → y ≤ x
    → read_range (convert_down x m) y ≡ range_of (m (2 * y)) (m (2 * y + 1))
unfolding convert_down convert_at
convert_down-range zero m y pos le = absurd (omega arith)
convert_down-range (suc x) m y pos le = elim (Bool-cases (y == suc x)) [
  | inl same ↦ rw ((==_iff y (suc x)).0 same) (
      convert_down-other x (convert_at m (suc x)) (suc x) (omega arith)
      ∙ read_range-write_same m (suc x) _)
  | inr other ↦
      convert_down-range x (convert_at m (suc x)) y pos (ground arith)
      ∙ rw
          (
            convert_at-cell m (suc x) (2 * y) (ground arith),
            convert_at-cell m (suc x) (2 * y + 1) (ground arith),
          )
          refl
]

fill-other :
    (x n : ℕ) (m : Memory) (y : ℕ)
    → (y < x) ⊎ (x + n ≤ y)
    → read_range (fill x n m) y ≡ read_range m y
unfolding fill
fill-other x zero m y out = refl
fill-other x (suc n) m y out =
    fill-other (suc x) n (write_range m x (make_range not_found 0)) y (ground arith)
    ∙ read_range-write_other m x y _ (ground arith)

fill-range :
    (x n : ℕ) (m : Memory) (y : ℕ)
    → x ≤ y
    → y < x + n
    → read_range (fill x n m) y ≡ make_range not_found 0
unfolding fill
fill-range x zero m y low high = absurd (omega arith)
fill-range x (suc n) m y low high = elim (Bool-cases (y == x)) [
  | inl same ↦ rw ((==_iff y x).0 same) (
      fill-other (suc x) n (write_range m x (make_range not_found 0)) x (inl (omega arith))
      ∙ read_range-write_same m x (make_range not_found 0))
  | inr other ↦
      fill-range (suc x) n (write_range m x (make_range not_found 0)) y (ground arith) (omega arith)
]

-- The range that a capture shall have after a match with `k` results in the memory `out`.
pub data IsCapture (k : ℕ) (out : Memory) (x : ℕ) (r : NsRange) : Type 0 where
  answered : x < k → IsVectorOf (out (2 * x)) (out (2 * x + 1)) r → IsCapture k out x r
  unanswered : k ≤ x → r ≡ make_range not_found 0 → IsCapture k out x r

convert-range :
    (k : ℕ) (m : Memory) (x : ℕ)
    → x < k
    → read_range (convert_at (convert_down (k - 1) m) 0) x ≡ range_of (m (2 * x)) (m (2 * x + 1))
unfolding convert_at
convert-range k m zero lt =
    read_range-write_same (convert_down (k - 1) m) 0 _
    ∙ rw (convert_down-cell (k - 1) m 0 (omega arith), convert_down-cell (k - 1) m 1 (omega arith))
        refl
convert-range k m (suc x) lt =
    read_range-write_other (convert_down (k - 1) m) 0 (suc x) _ (omega arith)
    ∙ convert_down-range (k - 1) m (suc x) (omega arith) (omega arith)

-- The memory after a match with `k` results in the memory `out`.
abbrev pub final_memory : ℕ → ℕ → Memory → Memory
final_memory captures k out = fill k (captures - k) (convert_at (convert_down (k - 1) out) 0)

pub final-range :
    (captures k : ℕ) (out : Memory) (x : ℕ) (r : NsRange)
    → x < captures
    → IsCapture k out x r
    → read_range (final_memory captures k out) x ≡ r
final-range captures k out x r lt (answered early v) =
    fill-other k (captures - k) _ x (inl early)
    ∙ (convert-range k out x early ∙ range_of-IsVectorOf _ _ r v)
final-range captures k out x r lt (unanswered late e) =
    fill-range k (captures - k) _ x late (omega arith) ∙ sym e

pub get_ranges-final :
    (exec : ℕ → ℕ → Memory → MatchCode × Memory)
    → (captures k n : ℕ) (m out : Memory) (r : NsRange) → is_out_of_range n r ≡ false
    → exec n r.location m ≡ (results k, out)
    → out 1 ≤ max_range r
    → out 1 < 2 ^ 31
    → get_ranges exec captures false false m n r
      ≡ ok (results k, final_memory captures k out, false)
unfolding get_ranges after_exec
get_ranges-final exec captures k n m out r inside answer ends small =
    let within : (not (out 1 == minus_one) && ltb (max_range r) (extend (out 1))) ≡ false =
      ground arith in
    rw (inside, answer, within) refl

-- Where pcre answers with results for a range that the method accepts, and the match ends within
-- the range, the method gives their number and no error, and each capture has its range in the
-- memory: that of its vector, or none where pcre said that it is unset or said nothing of it.
get_ranges-captures :
    (exec : ℕ → ℕ → Memory → MatchCode × Memory)
    → (captures k n x : ℕ) (m out : Memory) (r s : NsRange) → is_out_of_range n r ≡ false
    → exec n r.location m ≡ (results k, out)
    → out 1 ≤ max_range r
    → out 1 < 2 ^ 31
    → x < captures
    → IsCapture k out x s
    → (final : Memory) × (get_ranges exec captures false false m n r ≡ ok (results k, final, false))
      × (read_range final x ≡ s)
get_ranges-captures exec captures k n x m out r s inside answer ends small lt capture = (
  final_memory captures k out,
  get_ranges-final exec captures k n m out r inside answer ends small,
  final-range captures k out x s lt capture,
)
