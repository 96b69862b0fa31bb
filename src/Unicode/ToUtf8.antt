-- ===== src/Unicode/ToUtf8.antt =====
-- The conversion of a range of code units to bytes, against the text that a buffer holds.
use Prim.Native.Nat.{suc}
use Prim.Native.Nat.add
use native.Mathlib.Nat.{add_assoc, add-zero, zero-add}
use regexkit.Base.{
  [], refl, inl, inr, ap, false, true, ◌∙◌, ◌==◌, ◌-◌, some, if◌then◌else◌, ok, ◌⊎◌, ◌^◌, ◌<◌, ◌≤◌,
  arith, ◌++◌, ◌∷◌, ◌+◌, ◌≡◌, List, ℕ, ◌>>=◌, length,
}
use regexkit.Foundation.{NsRange, make_range, max_range, not_found, word}
use regexkit.Unicode.{
  Progress, pass, utf16_to_utf8_loop, utf8_range_of, start_of_text, convert_utf16_to_utf8_range,
  convert_utf8_to_utf16_range,
}
use regexkit.Unicode.Text.{
  encode_text, units_text, bytes_text, AllUnicode, buffer_of, units_of, bytes_of, units_of-pos,
  bytes_text-cons, bytes_text-append, units_text-append, length-le-units_text,
  units_text-le-bytes_text,
}
use regexkit.Unicode.Walk.{Walk, Walk-text, Walk-append}
use regexkit.Unicode.ToUtf16.{convert_utf8_to_utf16_range-text}

abbrev progress : ℕ → ℕ → ℕ → Progress
progress p u f = record { at = p; units = u; found = f }

pass-Walk :
    (bytes : List ℕ) (p u f g c : ℕ) (cs : List ℕ)
    → Walk bytes p (c ∷ cs)
    → pass bytes (progress p u f) g ≡ progress (p + bytes_of c) (u + units_of c) g
pass-Walk bytes p u f g c cs w = ground arith

module _ (bytes : List ℕ) (r : NsRange) where
  -- One round of the loop at the start of a character.
  round_units :
      (k p u f c : ℕ) (cs : List ℕ)
      → Walk bytes p (c ∷ cs)
      → u < max_range r
      → utf16_to_utf8_loop (suc k) bytes r (progress p u f)
        ≡ utf16_to_utf8_loop k bytes r
            (progress (p + bytes_of c) (u + units_of c) (if u == r.location then p else f))
  unfolding utf16_to_utf8_loop
  round_units k p u f c cs w lt =
      ground (arith, pass-Walk bytes p u f (if u == r.location then p else f) c cs w)

  -- Characters that start elsewhere than at the range's location are passed over.
  skip_units :
      (cs : List ℕ) (k p u f : ℕ)
      → Walk bytes p cs
      → u + units_text cs ≤ max_range r
      → (u + units_text cs ≤ r.location) ⊎ (r.location < u)
      → utf16_to_utf8_loop (length cs + k) bytes r (progress p u f)
        ≡ utf16_to_utf8_loop k bytes r (progress (p + bytes_text cs) (u + units_text cs) f)
  unfolding encode_text units_text
  skip_units [] k p u f w le other = rw (zero-add k, add-zero p, add-zero u)
  skip_units (c ∷ cs) k p u f w le other =
      let elsewhere : (u == r.location) ≡ false = ground (arith, units_of-pos c) in
      rw
        (
          add.suc (length cs) k,
          round_units (length cs + k) p u f c cs w (omega (arith, units_of-pos c)),
          elsewhere,
          bytes_text-cons c cs,
          ← add_assoc p (bytes_of c) (bytes_text cs),
          ← add_assoc u (units_of c) (units_text cs),
        )
        (skip_units cs k (p + bytes_of c) (u + units_of c) f w.2 (omega arith)
          (ground (arith, units_of-pos c)))

  stop_units :
      (k p u f : ℕ)
      → u ≡ max_range r
      → utf16_to_utf8_loop (suc k) bytes r (progress p u f) ≡ some (progress p u f)
  unfolding utf16_to_utf8_loop
  stop_units k p u f e = ground arith

  -- From the start of the range to its end, and the lines behind the loop.
  range_units :
      (mid : List ℕ) (k p u : ℕ)
      → Walk bytes p mid
      → r.location ≡ u
      → r.length ≡ units_text mid
      → u + units_text mid < word
      → p + bytes_text mid < word
      → (f : ℕ)
      → utf8_range_of r (utf16_to_utf8_loop (length mid + suc k) bytes r (progress p u f))
        ≡ ok (make_range p (bytes_text mid))
  unfolding utf8_range_of units_text encode_text
  range_units [] k p u w at len small sizes f =
      rw (zero-add (suc k), stop_units k p u f (omega arith)) (ground arith)
  range_units (c ∷ cs) k p u w at len small sizes f =
      let end = p + bytes_of c + bytes_text cs in
      let here : (u == r.location) ≡ true = ground arith in
      rw
        (
          add.suc (length cs) (suc k),
          round_units (length cs + suc k) p u f c cs w (omega (arith, units_of-pos c)),
          here,
          skip_units cs (suc k) (p + bytes_of c) (u + units_of c) p w.2 (omega arith)
              (inr (omega (arith, units_of-pos c))),
          stop_units k end (u + units_of c + units_text cs) p (omega arith),
        )
        (ground (arith, bytes_text-cons c cs, units_of-pos c))

-- `convert_utf16_to_utf8_range` takes the code units of any part of a text to its bytes: of a text
-- of fewer than 2^32 bytes, the range of code units of `mid` between `pre` and `post` becomes the
-- range whose location and length are the bytes of `pre` and of `mid`.
pub convert_utf16_to_utf8_range-text :
    (pre mid post : List ℕ)
    → AllUnicode (pre ++ (mid ++ post))
    → bytes_text (pre ++ (mid ++ post)) < 2 ^ 32
    → convert_utf16_to_utf8_range
        (some (buffer_of (pre ++ (mid ++ post))))
        (make_range (units_text pre) (units_text mid))
      ≡ ok (make_range (bytes_text pre) (bytes_text mid))
unfolding convert_utf16_to_utf8_range
convert_utf16_to_utf8_range-text pre mid post valid small =
    let text = pre ++ (mid ++ post) in
    let bytes = encode_text text in
    let p = bytes_text pre in
    let u = units_text pre in
    let v = units_text mid in
    let r = make_range u v in
    let k = u + v - length pre - length mid in
    let sizes : bytes_text text ≡ p + (bytes_text mid + bytes_text post) =
      bytes_text-append pre (mid ++ post) ∙ ap (λ n. p + n) (bytes_text-append mid post) in
    let units : units_text text ≡ u + (v + units_text post) =
      units_text-append pre (mid ++ post) ∙ ap (λ n. u + n) (units_text-append mid post) in
    let below = units_text-le-bytes_text text in
    let fuel : suc (max_range r) ≡ length pre + (length mid + suc k) =
      omega (arith, length-le-units_text pre, length-le-units_text mid) in
    let walks = Walk-append bytes 0 pre (mid ++ post) (Walk-text text valid) in
    let run : utf8_range_of r (utf16_to_utf8_loop (suc (max_range r)) bytes r start_of_text)
        ≡ ok (make_range (bytes_text pre) (bytes_text mid)) =
      rw
        (
          fuel,
          skip_units bytes r pre (length mid + suc k) 0 0 not_found walks.0 (omega arith)
              (inl (omega arith)),
          zero-add p,
          zero-add u,
        )
        (range_units bytes r mid k p u
          (rw zero-add at (Walk-append bytes (0 + p) mid post walks.1).0) refl refl (omega arith)
          (omega arith) not_found) in
    ground (arith, run, sizes, units)

-- The two conversions undo one another on every part of a text of fewer than 2^32 bytes.
pub convert_utf16_to_utf8_range-convert_utf8_to_utf16_range :
    (pre mid post : List ℕ)
    → AllUnicode (pre ++ (mid ++ post))
    → bytes_text (pre ++ (mid ++ post)) < 2 ^ 32
    → let buffer = some (buffer_of (pre ++ (mid ++ post))) in
      (convert_utf8_to_utf16_range buffer (make_range (bytes_text pre) (bytes_text mid))
        >>= convert_utf16_to_utf8_range buffer)
      ≡ ok (make_range (bytes_text pre) (bytes_text mid))
convert_utf16_to_utf8_range-convert_utf8_to_utf16_range pre mid post valid small =
    rw (convert_utf8_to_utf16_range-text pre mid post valid small)
      (convert_utf16_to_utf8_range-text pre mid post valid small)
