-- ===== src/Regex/Cells.antt =====
-- Writing a range into the memory of cells, and reading it.
use regexkit.Base.{ℕ, ◌+◌, ◌*◌, ◌/◌, ◌%◌, ◌≡◌, ◌≢◌, ◌⊎◌, ◌<◌, refl, ap, ◌∙◌, arith}
use regexkit.Foundation.{NsRange, make_range}
use regexkit.Regex.{Memory, half, write, write_range, read_range}

write-same : (m : Memory) (i v : ℕ) → write m i v i ≡ v
unfolding write
write-same m i v = ground arith

write-other : (m : Memory) (i v j : ℕ) → i ≢ j → write m i v j ≡ m j
unfolding write
write-other m i v j ne = ground arith

-- A write of a range leaves every cell outside of it.
pub write_range-other :
    (m : Memory) (x : ℕ) (r : NsRange) (j : ℕ)
    → (j < 4 * x) ⊎ (4 * x + 3 < j)
    → write_range m x r j ≡ m j
unfolding write_range
write_range-other m x r j out =
    write-other _ _ _ j (omega arith)
    ∙ (write-other _ _ _ j (omega arith)
        ∙ (write-other _ _ _ j (omega arith) ∙ write-other _ _ _ j (omega arith)))

join-halves : (n : ℕ) → n % half + half * (n / half) ≡ n
join-halves n = omega arith

pub read_range-write_same :
    (m : Memory) (x : ℕ) (r : NsRange) → read_range (write_range m x r) x ≡ r
unfolding read_range write_range
read_range-write_same m x r =
    let a = write m (4 * x) (r.location % half) in
    let b = write a (4 * x + 1) (r.location / half) in
    let c = write b (4 * x + 2) (r.length % half) in
    let d = write c (4 * x + 3) (r.length / half) in
    let first : d (4 * x) ≡ r.location % half =
      write-other c _ _ _ (omega arith)
      ∙ (write-other b _ _ _ (omega arith)
          ∙ (write-other a _ _ _ (omega arith) ∙ write-same m (4 * x) (r.location % half))) in
    let second : d (4 * x + 1) ≡ r.location / half =
      write-other c _ _ _ (omega arith)
      ∙ (write-other b _ _ _ (omega arith) ∙ write-same a (4 * x + 1) (r.location / half)) in
    let third : d (4 * x + 2) ≡ r.length % half =
      write-other c _ _ _ (omega arith) ∙ write-same b (4 * x + 2) (r.length % half) in
    rw (first, second, third, write-same c (4 * x + 3) (r.length / half))
      (ap (λ l. make_range l (r.length % half + half * (r.length / half))) (join-halves r.location)
        ∙ ap (λ n. make_range r.location n) (join-halves r.length))

apart : (x y k : ℕ) → x ≢ y → k < 4 → (4 * y + k < 4 * x) ⊎ (4 * x + 3 < 4 * y + k)
apart x y k ne small = ground arith

apart_first : (x y : ℕ) → x ≢ y → (4 * y < 4 * x) ⊎ (4 * x + 3 < 4 * y)
apart_first x y ne = ground arith

pub read_range-write_other :
    (m : Memory) (x y : ℕ) (r : NsRange) → x ≢ y → read_range (write_range m x r) y ≡ read_range m y
unfolding read_range
read_range-write_other m x y r ne =
    rw
      (
        write_range-other m x r (4 * y) (apart_first x y ne),
        write_range-other m x r (4 * y + 1) (apart x y 1 ne (omega arith)),
        write_range-other m x r (4 * y + 2) (apart x y 2 ne (omega arith)),
        write_range-other m x r (4 * y + 3) (apart x y 3 ne (omega arith)),
      )
      refl
