-- ===== src/Tests/UnicodeRuns.antt =====
-- Source/RKUnicode.m on the text of a one-, a two-, a four- and a three-byte character.
use regexkit.Base.{refl, ◌%◌, ◌+◌, ◌-◌, arith, ◌^◌, ok, ◌≡◌, some, ℕ, List, [], ◌∷◌, ◌>>=◌}
use regexkit.Foundation.{make_range}
use regexkit.Unicode.{
  extra_bytes, extra_units, utf16_to_utf8_loop, utf8_range_of, convert_utf8_to_utf16_range,
  convert_utf16_to_utf8_range, range_for_utf8_character_at_location,
}
use regexkit.Unicode.Text.{encode, encode_text, units_of, bytes_of, units_text, buffer_of}
use regexkit.Unicode.Character.{range_for_utf8_character_at_location-text}
use regexkit.Unicode.ToUtf16.{convert_utf8_to_utf16_range-text}
use regexkit.Unicode.ToUtf8.{
  convert_utf16_to_utf8_range-text, convert_utf16_to_utf8_range-convert_utf8_to_utf16_range,
}

abbrev sample : List ℕ
sample = 0x61 ∷ 0xe9 ∷ 0x1d11e ∷ 0x20ac ∷ []

convert_utf8_to_utf16_range-text_example :
    convert_utf8_to_utf16_range (some (buffer_of sample)) (make_range 3 4) ≡ ok (make_range 2 2)
unfolding encode_text encode units_text units_of
convert_utf8_to_utf16_range-text_example =
    convert_utf8_to_utf16_range-text (0x61 ∷ 0xe9 ∷ []) (0x1d11e ∷ []) (0x20ac ∷ []) (omega arith)
      (omega arith)

convert_utf16_to_utf8_range-text_example :
    convert_utf16_to_utf8_range (some (buffer_of sample)) (make_range 2 2) ≡ ok (make_range 3 4)
unfolding encode_text encode units_text units_of
convert_utf16_to_utf8_range-text_example =
    convert_utf16_to_utf8_range-text (0x61 ∷ 0xe9 ∷ []) (0x1d11e ∷ []) (0x20ac ∷ []) (omega arith)
      (omega arith)

conversions_example :
    (convert_utf8_to_utf16_range (some (buffer_of sample)) (make_range 3 7)
      >>= convert_utf16_to_utf8_range (some (buffer_of sample)))
    ≡ ok (make_range 3 7)
unfolding encode_text encode
conversions_example =
    convert_utf16_to_utf8_range-convert_utf8_to_utf16_range (0x61 ∷ 0xe9 ∷ [])
      (0x1d11e ∷ 0x20ac ∷ []) [] (omega arith) (omega arith)

range_for_utf8_character_at_location-text_example :
    range_for_utf8_character_at_location (some (buffer_of sample)) 5 ≡ ok (make_range 3 4)
unfolding encode_text encode bytes_of
range_for_utf8_character_at_location-text_example =
    range_for_utf8_character_at_location-text (0x61 ∷ 0xe9 ∷ []) 0x1d11e (0x20ac ∷ []) 2
      (omega arith) (omega arith)

-- A range that starts between two surrogates has no byte location: the code gives `NSNotFound`.
between_surrogates :
    convert_utf16_to_utf8_range (some (buffer_of sample)) (make_range 3 1)
    ≡ ok (make_range (2 ^ 63 - 1) ((7 + 2 ^ 64 - (2 ^ 63 - 1)) % 2 ^ 64))
unfolding convert_utf16_to_utf8_range utf16_to_utf8_loop utf8_range_of extra_bytes extra_units
    encode_text encode units_text units_of
between_surrogates = refl
