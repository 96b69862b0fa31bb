-- ===== src/Unicode/ToUtf16.antt =====
-- The conversion of a range of bytes to code units, against the text that a buffer holds.
use native.Mathlib.Nat.{add_assoc, add-zero, zero-add}
use Prim.Native.Nat.add
use regexkit.Base.{
  refl, inl, ap, ◌∙◌, ◌-◌, ◌++◌, inr, true, ok, some, ℕ, suc, ◌+◌, ◌^◌, ◌≤◌, ◌<◌, ◌==◌,
  if◌then◌else◌, false, List, [], ◌∷◌, ◌≡◌, ◌⊎◌, arith, length,
}
use regexkit.Foundation.{not_found, make_range, NsRange, max_range}
use regexkit.Unicode.{
  start_of_text, convert_utf8_to_utf16_range, utf16_range_of, Progress, pass, unsigned,
  utf8_to_utf16_loop,
}
use regexkit.Unicode.Text.{
  units_text-le-bytes_text, length-le-bytes_text, bytes_text-append, buffer_of, AllUnicode,
  encode_text, units_text, bytes_text, units_of, bytes_of, bytes_of-pos, bytes_text-cons,
}
use regexkit.Unicode.Walk.{Walk-text, Walk-append, Walk}

abbrev progress : ℕ → ℕ → ℕ → Progress
progress p u f = record { at = p; units = u; found = f }

pass-Walk :
    (bytes : List ℕ) (p u f g c : ℕ) (cs : List ℕ)
    → Walk bytes p (c ∷ cs)
    → pass bytes (progress p u f) g ≡ progress (p + bytes_of c) (u + units_of c) g
pass-Walk bytes p u f g c cs w = ground arith

module _ (bytes : List ℕ) (r : NsRange) where
  -- One round of the loop at the start of a character.
  round_bytes :
      (k p u f c : ℕ) (cs : List ℕ)
      → Walk bytes p (c ∷ cs)
      → p < max_range r
      → max_range r < 2 ^ 32
      → utf8_to_utf16_loop (suc k) bytes r (progress p u f)
        ≡ utf8_to_utf16_loop k bytes r
            (progress (p + bytes_of c) (u + units_of c) (if p == r.location then u else f))
  unfolding utf8_to_utf16_loop
  round_bytes k p u f c cs w lt small =
      let cut : unsigned p ≡ p = omega arith in
      ground (arith, cut, pass-Walk bytes p u f (if p == r.location then u else f) c cs w)

  -- Characters that start elsewhere than at the range's location are passed over.
  skip_bytes :
      (cs : List ℕ) (k p u f : ℕ)
      → Walk bytes p cs
      → p + bytes_text cs ≤ max_range r
      → max_range r < 2 ^ 32
      → (p + bytes_text cs ≤ r.location) ⊎ (r.location < p)
      → utf8_to_utf16_loop (length cs + k) bytes r (progress p u f)
        ≡ utf8_to_utf16_loop k bytes r (progress (p + bytes_text cs) (u + units_text cs) f)
  unfolding encode_text units_text
  skip_bytes [] k p u f w le small other = rw (zero-add k, add-zero p, add-zero u)
  skip_bytes (c ∷ cs) k p u f w le small other =
      let elsewhere : (p == r.location) ≡ false =
        ground (arith, bytes_text-cons c cs, bytes_of-pos c) in
      rw
        (
          add.suc (length cs) k,
          round_bytes (length cs + k) p u f c cs w
              (omega (arith, bytes_text-cons c cs, bytes_of-pos c)) small,
          elsewhere,
          bytes_text-cons c cs,
          ← add_assoc p (bytes_of c) (bytes_text cs),
          ← add_assoc u (units_of c) (units_text cs),
        )
        (skip_bytes cs k (p + bytes_of c) (u + units_of c) f w.2
          (omega (arith, bytes_text-cons c cs)) small
          (ground (arith, bytes_text-cons c cs, bytes_of-pos c)))

  stop_bytes :
      (k p u f : ℕ)
      → p ≡ max_range r
      → max_range r < 2 ^ 32
      → utf8_to_utf16_loop (suc k) bytes r (progress p u f) ≡ some (progress p u f)
  unfolding utf8_to_utf16_loop
  stop_bytes k p u f e small = let cut : unsigned p ≡ p = omega arith in ground (arith, cut)

  -- From the start of the range to its end, and the lines behind the loop.
  range_bytes :
      (mid : List ℕ) (k p u : ℕ)
      → Walk bytes p mid
      → r.location ≡ p
      → r.length ≡ bytes_text mid
      → p + bytes_text mid < 2 ^ 32
      → u + units_text mid < 2 ^ 32
      → (f : ℕ)
      → utf16_range_of r (utf8_to_utf16_loop (length mid + suc k) bytes r (progress p u f))
        ≡ ok (make_range u (units_text mid))
  unfolding utf16_range_of units_text encode_text
  range_bytes [] k p u w at len small units f =
      let cut : unsigned p ≡ p = omega arith in
      rw (zero-add (suc k), stop_bytes k p u f (omega arith) (omega arith)) (ground (arith, cut))
  range_bytes (c ∷ cs) k p u w at len small units f =
      let end = p + bytes_of c + bytes_text cs in
      let cut : unsigned end ≡ end = omega (arith, bytes_text-cons c cs) in
      let here : (p == r.location) ≡ true = ground arith in
      rw
        (
          add.suc (length cs) (suc k),
          round_bytes (length cs + suc k) p u f c cs w
              (omega (arith, bytes_text-cons c cs, bytes_of-pos c)) (omega arith),
          here,
          skip_bytes cs (suc k) (p + bytes_of c) (u + units_of c) u w.2
              (omega (arith, bytes_text-cons c cs)) (omega arith)
              (inr (omega (arith, bytes_of-pos c))),
          stop_bytes k end (u + units_of c + units_text cs) u (omega (arith, bytes_text-cons c cs))
              (omega arith),
        )
        (ground (arith, cut, bytes_text-cons c cs, bytes_of-pos c))

-- `convert_utf8_to_utf16_range` takes the bytes of any part of a text to its code units: of a text
-- of fewer than 2^32 bytes, the byte range of `mid` between `pre` and `post` becomes the range
-- whose location and length are the code units of `pre` and of `mid`.
pub convert_utf8_to_utf16_range-text :
    (pre mid post : List ℕ)
    → AllUnicode (pre ++ (mid ++ post))
    → bytes_text (pre ++ (mid ++ post)) < 2 ^ 32
    → convert_utf8_to_utf16_range
        (some (buffer_of (pre ++ (mid ++ post))))
        (make_range (bytes_text pre) (bytes_text mid))
      ≡ ok (make_range (units_text pre) (units_text mid))
unfolding convert_utf8_to_utf16_range
convert_utf8_to_utf16_range-text pre mid post valid small =
    let text = pre ++ (mid ++ post) in
    let bytes = encode_text text in
    let p = bytes_text pre in
    let q = bytes_text mid in
    let r = make_range p q in
    let k = p + q - length pre - length mid in
    let sizes : bytes_text text ≡ p + (q + bytes_text post) =
      bytes_text-append pre (mid ++ post) ∙ ap (λ n. p + n) (bytes_text-append mid post) in
    let fuel : suc (max_range r) ≡ length pre + (length mid + suc k) =
      omega (arith, length-le-bytes_text pre, length-le-bytes_text mid) in
    let walks = Walk-append bytes 0 pre (mid ++ post) (Walk-text text valid) in
    let run : utf16_range_of r (utf8_to_utf16_loop (suc (max_range r)) bytes r start_of_text)
        ≡ ok (make_range (units_text pre) (units_text mid)) =
      rw
        (
          fuel,
          skip_bytes bytes r pre (length mid + suc k) 0 0 not_found walks.0 (omega arith)
              (omega arith) (inl (omega arith)),
          zero-add p,
          zero-add (units_text pre),
        )
        (range_bytes bytes r mid k p (units_text pre)
          (rw zero-add at (Walk-append bytes (0 + p) mid post walks.1).0) refl refl (omega arith)
          (omega (arith, units_text-le-bytes_text pre, units_text-le-bytes_text mid)) not_found) in
    ground (arith, run, sizes)
