-- ===== src/Options/RoundTrip.antt =====
-- The strings of a word of options have all of its bits, and the names of the options that are set.
use regexkit.Base.{
  ◌∙◌, sym, subst, ℕ, zero, suc, ◌≡◌, ◌<◌, refl, arith, Bool, true, false, not, ◌&&◌, ◌||◌, ◌==◌,
  Bool-cases, inl, inr, if_either, Option, none, some, List, [], ◌∷◌, ◌++◌,
}
use regexkit.Options.{
  Mask, newline_mask, NewlineText, newline_default, newline_cr, newline_lf, newline_crlf,
  newline_any, newline_any_crlf, newline_unknown, newline_case, string_from_newline_option,
  OptionText, named, newline, remain, no_options, has, with_bit, any_bit, scan, newline_part,
  remaining, remain_part, or_no_options, decode,
}

-- The bits that a string stands for.
abbrev pub newline_bits : NewlineText → Mask
newline_bits newline_default k = false
newline_bits newline_cr k = k == 20
newline_bits newline_lf k = k == 21
newline_bits newline_crlf k = k == 20 || k == 21
newline_bits newline_any k = k == 22
newline_bits newline_any_crlf k = k == 22 || k == 20
newline_bits (newline_unknown b) k = k == 22 || (k == 21 || (b && k == 20))

-- The bits of the newline are those of the word.
pub newline-bits :
    (c b a : Bool) (k : ℕ)
    → newline_bits (newline_case c b a) k ≡ ((c && k == 22) || ((b && k == 21) || (a && k == 20)))
unfolding newline_case
newline-bits false false false k = refl
newline-bits false false true k = refl
newline-bits false true false k = ground arith
newline-bits false true true k = ground arith
newline-bits true false true k = ground arith
newline-bits true false false k = ground arith
newline-bits true true b k = ground arith

bit-at : (m : Mask) (j k : ℕ) → (m j && k == j) ≡ (m k && k == j)
bit-at m j k = elim (Bool-cases (k == j)) [
  | inl e ↦
      let same : k ≡ j = ground (arith, e) in
      subst (λ i. (m j && k == j) ≡ (m i && k == j)) (sym same) refl
  | inr e ↦ ground (arith, e)
]

-- The newline bits of a word.
pub newline_mask-bits :
    (m : Mask) (k : ℕ)
    → ((m 22 && k == 22) || ((m 21 && k == 21) || (m 20 && k == 20))) ≡ (m k && newline_mask k)
newline_mask-bits m k =
    let high = bit-at m 22 k in
    let middle = bit-at m 21 k in let low = bit-at m 20 k in ground (arith, high, middle, low)

abbrev pub option_bit : Option ℕ → Mask
option_bit none k = false
option_bit (some j) k = k == j

with_bit-bits : (d : Mask) (b : Option ℕ) (k : ℕ) → with_bit d b k ≡ (d k || option_bit b k)
with_bit-bits d none k = ground arith
with_bit-bits d (some j) k = refl

has-option_bit :
    (m : Mask) (b : Option ℕ) (k : ℕ) → has m b ≡ true → option_bit b k ≡ true → m k ≡ true
has-option_bit m none k h e = absurd (ground (arith, h))
has-option_bit m (some j) k h e =
    let same : k ≡ j = ground (arith, e) in subst (λ i. m i ≡ true) (sym same) h

any_bit-true : (m : Mask) (n k : ℕ) → k < n → m k ≡ true → any_bit m n ≡ true
unfolding any_bit
any_bit-true m zero k e h = absurd (omega (arith, e))
any_bit-true m (suc n) k e h = elim (Bool-cases (k == n)) [
  | inl same ↦
      let last : k ≡ n = ground (arith, same) in
      let here = subst (λ i. m i ≡ true) last h in rw here refl
  | inr other ↦ let rest = any_bit-true m n k (ground (arith, e, other)) h in ground (arith, rest)
]

pub any_bit-false : (m : Mask) (n k : ℕ) → k < n → any_bit m n ≡ false → m k ≡ false
any_bit-false m n k e h = elim (Bool-cases (m k)) [
  | inl set ↦ absurd (ground (arith, h, any_bit-true m n k e set))
  | inr clear ↦ clear
]

whole :
    (names word line decoded start : Bool)
    → decoded ≡ (start || names)
    → (names ≡ true → word ≡ true)
    → (start ≡ true → line ≡ true)
    → (names || ((word && line) || (not (decoded || (word && line)) && word))) ≡ word
whole true word line decoded start d n l = sym (n refl)
whole false false line decoded start d n l = ground arith
whole false true line decoded true d n l = rw (l refl) refl
whole false true line decoded false d n l = rw d (ground arith)

module _ {O : Type 0} (bit : O → Option ℕ) where
  abbrev pub text_bits : OptionText O → Mask
  text_bits (named o) k = option_bit (bit o) k
  text_bits (newline t) k = newline_bits t k
  text_bits (remain r) k = r k
  text_bits no_options k = false

  -- The bits of all strings.
  abbrev pub all_bits : List (OptionText O) → Mask
  all_bits [] k = false
  all_bits (t ∷ ts) k = text_bits t k || all_bits ts k

  all_bits-append :
      (ts us : List (OptionText O)) (k : ℕ)
      → all_bits (ts ++ us) k ≡ (all_bits ts k || all_bits us k)
  all_bits-append [] us k = refl
  all_bits-append (t ∷ ts) us k = let rest = all_bits-append ts us k in ground (arith, rest)

  pub scan-decoded :
      (options : List O) (m d : Mask) (k : ℕ)
      → (scan bit options m d).1 k ≡ (d k || all_bits (scan bit options m d).0 k)
  unfolding scan
  scan-decoded [] m d k = ground arith
  scan-decoded (o ∷ options) m d k =
      let found = scan-decoded options m (with_bit d (bit o)) k in
      let added = with_bit-bits d (bit o) k in
      if_either {A = List (OptionText O) × Mask} (λ r. r.1 k ≡ (d k || all_bits r.0 k))
        (has m (bit o)) _ _ (λ h. ground (arith, found, added)) (λ h. scan-decoded options m d k)

  scan-bits :
      (options : List O) (m d : Mask) (k : ℕ)
      → all_bits (scan bit options m d).0 k ≡ true
      → m k ≡ true
  unfolding scan
  scan-bits [] m d k e = absurd (ground (arith, e))
  scan-bits (o ∷ options) m d k e =
      if_either {A = List (OptionText O) × Mask} (λ r. all_bits r.0 k ≡ true → m k ≡ true)
        (has m (bit o)) _ _
        (λ h f. elim (Bool-cases (option_bit (bit o) k)) [
          | inl here ↦ has-option_bit m (bit o) k h here
          | inr other ↦ scan-bits options m (with_bit d (bit o)) k (ground (arith, f, other))
        ])
        (λ h f. scan-bits options m d k f) e

  or_no_options-bits :
      (ts : List (OptionText O)) (k : ℕ) → all_bits (or_no_options bit ts) k ≡ all_bits ts k
  or_no_options-bits [] k = refl
  or_no_options-bits (t ∷ ts) k = refl

  newline_part-bits : (m : Mask) (k : ℕ) → all_bits (newline_part bit m) k ≡ (m k && newline_mask k)
  unfolding string_from_newline_option
  newline_part-bits m k =
      let bits = newline-bits (m 22) (m 21) (m 20) k in
      let word = newline_mask-bits m k in
      if_either (λ ts. all_bits ts k ≡ (m k && newline_mask k)) (m 22 || (m 21 || m 20)) _ []
        (λ h. ground (arith, bits, word)) (λ h. ground (arith, h, word))

  remain_part-bits : (r : Mask) (k : ℕ) → k < 32 → all_bits (remain_part bit r) k ≡ r k
  remain_part-bits r k e =
      if_either (λ ts. all_bits ts k ≡ r k) (any_bit r 32) (remain r ∷ []) [] (λ h. ground arith)
        (λ h. sym (any_bit-false r 32 k e h))

  -- The strings have the bits of the word, whatever the options are, if none but newline bits are taken
  -- for decoded at first.
  pub decode-bits :
      (options : List O) (start m : Mask) (k : ℕ)
      → k < 32
      → (start k ≡ true → newline_mask k ≡ true)
      → all_bits (decode bit options start m) k ≡ m k
  unfolding decode
  decode-bits options start m k e only =
      let s = scan bit options m start in
      let r = remaining bit m s.1 in
      let parts = newline_part bit m ++ remain_part bit r in
      let plain = or_no_options-bits (s.0 ++ parts) k in
      let front = all_bits-append s.0 parts k in
      let back = all_bits-append (newline_part bit m) (remain_part bit r) k in
      let line = newline_part-bits m k in
      let rest = remain_part-bits r k e in
      let decoded = scan-decoded options m start k in
      let inside = scan-bits options m start k in
      plain
      ∙ (front
          ∙ rw (back, line, rest)
              (whole (all_bits s.0 k) (m k) (newline_mask k) (s.1 k) (start k) decoded inside only))
