-- ===== src/Unicode.antt =====
-- Source/RKUnicode.m: the tables of UTF-8 lead bytes, the range of one character, and the
-- conversion of ranges between UTF-8 bytes and UTF-16 code units.
pub mod Text
pub mod Walk
pub mod Character
pub mod ToUtf16
pub mod ToUtf8
use regexkit.Base.{
  ℕ, zero, suc, ◌+◌, ◌-◌, ◌%◌, ◌^◌, ltb, leb, ◌==◌, if◌then◌else◌, Bool, true, false, ◌&&◌, ◌||◌,
  List, [], ◌∷◌, ◌++◌, Option, none, some, get_or, Outcome, ok, raise, out_of_fuel,
  invalid_argument, range_exception, replicate,
}
use regexkit.Foundation.{
  NsRange, make_range, max_range, sub_word, not_found, StringBuffer, is_single_byte,
}

abbrev pub utf8_extra_bytes : List ℕ
utf8_extra_bytes =
    replicate 32 1 ++ (replicate 16 2 ++ (replicate 8 3 ++ (4 ∷ 4 ∷ 4 ∷ 4 ∷ 5 ∷ 5 ∷ 5 ∷ 5 ∷ [])))

abbrev pub utf8_extra_utf16_characters : List ℕ
utf8_extra_utf16_characters = replicate 48 0 ++ (replicate 12 1 ++ (2 ∷ 2 ∷ 2 ∷ 2 ∷ []))

-- Bytes that follow the lead byte `c`; `c & 0x3f` is `c % 64`.
unfoldable pub extra_bytes : ℕ → ℕ
extra_bytes c = if ltb c 128 then 0 else get_or utf8_extra_bytes (c % 64) 0

-- Code units beyond the first.
unfoldable pub extra_units : ℕ → ℕ
extra_units c = if ltb c 128 then 0 else get_or utf8_extra_utf16_characters (c % 64) 0

-- A read at or behind the terminating NUL gives 0.
abbrev pub byte_at : List ℕ → ℕ → ℕ
byte_at bytes p = get_or bytes p 0

-- `RKLengthOfUTF8Character`, of the character that starts with the byte `c`.
unfoldable pub length_of_utf8_character : ℕ → ℕ
unfolding extra_bytes
length_of_utf8_character c = if ltb c 128 then 1 else get_or utf8_extra_bytes (c % 64) 0 + 1

abbrev pub is_continuation : ℕ → Bool
is_continuation c = ltb 127 c && ltb c 0xc0

-- The loop that steps back to the byte that starts the character.
pub step_back : List ℕ → ℕ → ℕ
step_back bytes zero = zero
step_back bytes (suc p) =
    let rest = step_back bytes p in if is_continuation (byte_at bytes (suc p)) then rest else suc p

-- `RKRangeForUTF8CharacterAtLocation`; a `NULL` buffer is `none`.
pub range_for_utf8_character_at_location : Option StringBuffer → ℕ → Outcome NsRange
range_for_utf8_character_at_location none at = raise invalid_argument
range_for_utf8_character_at_location (some b) at =
    let start = if (b.length == at) && ltb 0 at then at - 1 else at in
    let first =
      if is_continuation (byte_at b.characters start)
      then step_back b.characters start
      else start in
    ok (make_range first (length_of_utf8_character (byte_at b.characters first)))

-- What a conversion loop has reached: the byte offset `p - characters`, the code units before it,
-- and the location found so far.
pub record Progress : Type 0 where
  pub at : ℕ
  pub units : ℕ
  pub found : ℕ

-- The part of the loop's body that both loops share: read one character, and pass it.
abbrev pub pass : List ℕ → Progress → ℕ → Progress
pass bytes s found =
    let c = byte_at bytes s.at in
    record { at = s.at + 1 + extra_bytes c; units = s.units + 1 + extra_units c; found = found }

-- `(unsigned)(p - characters)`: a byte offset, cut to 32 bits.
abbrev pub unsigned : ℕ → ℕ
unsigned p = p % 2 ^ 32

unfoldable pub utf8_to_utf16_loop : ℕ → List ℕ → NsRange → Progress → Option Progress
utf8_to_utf16_loop zero bytes r s = none
utf8_to_utf16_loop (suc fuel) bytes r s = elim (ltb (unsigned s.at) (max_range r)) [
  | true ↦
      utf8_to_utf16_loop fuel bytes r
        (pass bytes s (if unsigned s.at == r.location then s.units else s.found))
  | false ↦ some s
]

-- The lines behind the loop.
unfoldable pub utf16_range_of : NsRange → Option Progress → Outcome NsRange
utf16_range_of r none = out_of_fuel
utf16_range_of r (some s) =
    let start = if unsigned s.at == r.location then s.units else s.found in
    ok (make_range start (sub_word s.units start))

abbrev pub start_of_text : Progress
start_of_text = record { at = 0; units = 0; found = not_found }

-- `RKConvertUTF8ToUTF16RangeForStringBuffer`. Each round passes a byte at least.
unfoldable pub convert_utf8_to_utf16_range : Option StringBuffer → NsRange → Outcome NsRange
convert_utf8_to_utf16_range none r = raise invalid_argument
convert_utf8_to_utf16_range (some b) r =
    if r.location == not_found
    then ok r
    else if ltb b.length r.location || ltb b.length (max_range r)
    then raise range_exception
    else if is_single_byte b.encoding
    then ok r
    else utf16_range_of r (utf8_to_utf16_loop (suc (max_range r)) b.characters r start_of_text)

unfoldable pub utf16_to_utf8_loop : ℕ → List ℕ → NsRange → Progress → Option Progress
utf16_to_utf8_loop zero bytes r s = none
utf16_to_utf8_loop (suc fuel) bytes r s = elim (ltb s.units (max_range r)) [
  | true ↦
      utf16_to_utf8_loop fuel bytes r
        (pass bytes s (if s.units == r.location then s.at else s.found))
  | false ↦ some s
]

unfoldable pub utf8_range_of : NsRange → Option Progress → Outcome NsRange
utf8_range_of r none = out_of_fuel
utf8_range_of r (some s) =
    let start = if s.units == r.location then s.at else s.found in
    ok (make_range start (sub_word s.at start))

-- `RKConvertUTF16ToUTF8RangeForStringBuffer`. Each round passes a code unit at least.
unfoldable pub convert_utf16_to_utf8_range : Option StringBuffer → NsRange → Outcome NsRange
convert_utf16_to_utf8_range none r = raise invalid_argument
convert_utf16_to_utf8_range (some b) r =
    if r.location == not_found
    then ok r
    else if ltb b.units r.location || ltb b.units (max_range r)
    then raise range_exception
    else if is_single_byte b.encoding
    then ok r
    else utf8_range_of r (utf16_to_utf8_loop (suc (max_range r)) b.characters r start_of_text)
