-- ===== src/Unicode/Character.antt =====
-- The range of the character at a byte offset, against the text that a buffer holds.
use Prim.Native.Nat.add
use native.Mathlib.Nat.{add-suc, add-zero, zero-add}
use regexkit.Base.{
  refl, ◌==◌, zero, if◌then◌else◌, ok, [], ◌∷◌, some, ◌+◌, true, arith, false, ◌++◌, ◌<◌, suc, ◌≡◌,
  List, ℕ, length,
}
use regexkit.Foundation.{make_range}
use regexkit.Unicode.{
  extra_bytes, length_of_utf8_character, is_continuation, step_back, byte_at,
  range_for_utf8_character_at_location,
}
use regexkit.Unicode.Text.{
  encode_text-append, encode, encode_text, bytes_text, buffer_of, bytes_of, bytes_text-cons,
  bytes_text-append,
}
use regexkit.Unicode.Walk.{lead, byte_at-lead, extra-lead}

byte_at-append : (pre xs : List ℕ) (i : ℕ) → byte_at (pre ++ xs) (length pre + i) ≡ byte_at xs i
byte_at-append [] xs i = rw (zero-add i)
byte_at-append (x ∷ pre) xs i = rw (add.suc (length pre) i) (byte_at-append pre xs i)

-- Behind the first byte of a character stand continuation bytes.
inside_encode :
    (c i : ℕ) (rest : List ℕ)
    → suc i < bytes_of c
    → is_continuation (byte_at (encode c ++ rest) (suc i)) ≡ true
unfolding bytes_of encode
inside_encode c zero rest h = ground arith
inside_encode c (suc zero) rest h = ground arith
inside_encode c (suc (suc zero)) rest h = ground arith
inside_encode c (suc (suc (suc i))) rest h = ground arith

lead_starts : (c : ℕ) → is_continuation (lead c) ≡ false
unfolding lead
lead_starts c = ground arith

length_of_utf8_character-suc : (b : ℕ) → length_of_utf8_character b ≡ suc (extra_bytes b)
unfolding length_of_utf8_character extra_bytes
length_of_utf8_character-suc b = ground arith

-- Stepping back from inside a character ends at its first byte.
step_back-start :
    (bytes : List ℕ) (p j : ℕ)
    → is_continuation (byte_at bytes p) ≡ false
    → ((i : ℕ) → i < j → is_continuation (byte_at bytes (p + suc i)) ≡ true)
    → step_back bytes (p + j) ≡ p
unfolding step_back
step_back-start bytes zero zero start inside = refl
step_back-start bytes (suc p) zero start inside = rw (add-zero (suc p), start, step_back)
step_back-start bytes p (suc j) start inside =
    let last : is_continuation (byte_at bytes (suc (p + j))) ≡ true =
      rw add-suc at (inside j (omega arith)) in
    rw (add-suc p j, step_back, last)
      (step_back-start bytes p j start (λ i h. inside i (omega arith)))

-- The first byte of the character, as the code finds it.
start_of :
    (bytes : List ℕ) (p j : ℕ)
    → is_continuation (byte_at bytes p) ≡ false
    → ((i : ℕ) → i < j → is_continuation (byte_at bytes (p + suc i)) ≡ true)
    → (if is_continuation (byte_at bytes (p + j)) then step_back bytes (p + j) else p + j) ≡ p
start_of bytes p zero start inside = rw (add-zero p, start)
start_of bytes p (suc j) start inside =
    rw (inside j (omega arith)) (step_back-start bytes p (suc j) start inside)

split_text :
    (pre : List ℕ) (c : ℕ) (post : List ℕ)
    → encode_text (pre ++ (c ∷ post)) ≡ encode_text pre ++ (encode c ++ encode_text post)
unfolding encode_text
split_text pre c post = encode_text-append pre (c ∷ post)

-- The range is that of the character that the location is in: at any byte of `c`, in a text that
-- goes on before and behind it, it is the location of the first byte of `c`, with the number of
-- its bytes.
pub range_for_utf8_character_at_location-text :
    (pre : List ℕ) (c : ℕ) (post : List ℕ) (j : ℕ)
    → c < 0x110000
    → j < bytes_of c
    → range_for_utf8_character_at_location
        (some (buffer_of (pre ++ (c ∷ post))))
        (bytes_text pre + j)
      ≡ ok (make_range (bytes_text pre) (bytes_of c))
unfolding range_for_utf8_character_at_location
range_for_utf8_character_at_location-text pre c post j valid inside =
    let bytes = encode_text (pre ++ (c ∷ post)) in
    let p = bytes_text pre in
    let shape : bytes ≡ encode_text pre ++ (encode c ++ encode_text post) = split_text pre c post in
    let first : byte_at bytes p ≡ lead c =
      rw shape (byte_at-lead (encode_text pre) c (encode_text post)) in
    let behind : (i : ℕ) → i < j → is_continuation (byte_at bytes (p + suc i)) ≡ true = λ i h.
      rw (shape, byte_at-append (encode_text pre) (encode c ++ encode_text post) (suc i))
        (inside_encode c i (encode_text post) (omega arith)) in
    let starts : is_continuation (byte_at bytes p) ≡ false = rw first (lead_starts c) in
    let stepped = step_back-start bytes p j starts behind in
    let size : length_of_utf8_character (byte_at bytes p) ≡ bytes_of c =
      rw (first, length_of_utf8_character-suc (lead c)) (extra-lead c valid).0 in
    let more : (bytes_text (pre ++ (c ∷ post)) == p + j) ≡ false =
      ground (arith, bytes_text-append pre (c ∷ post), bytes_text-cons c post) in
    rw (more, start_of bytes p j starts behind, size)
