-- ===== src/Unicode/Text.antt =====
-- The specification of the conversions: a text is a list of code points, with the UTF-8 bytes and
-- the UTF-16 code units that each takes by the standard.
use regexkit.Base.{
  refl, append_assoc, sym, length-append, ◌≤◌, ◌≡◌, arith, ℕ, ◌+◌, ◌/◌, ◌%◌, ◌<◌, ltb,
  if◌then◌else◌, List, [], ◌∷◌, ◌++◌, length,
}
use regexkit.Foundation.{StringBuffer, utf8}

-- The UTF-8 form of a code point.
unfoldable pub encode : ℕ → List ℕ
encode c =
    if ltb c 0x80
    then c ∷ []
    else if ltb c 0x800
    then (0xc0 + c / 64) ∷ (0x80 + c % 64) ∷ []
    else if ltb c 0x10000
    then (0xe0 + c / 4096) ∷ (0x80 + c / 64 % 64) ∷ (0x80 + c % 64) ∷ []
    else (0xf0 + c / 262144) ∷ (0x80 + c / 4096 % 64) ∷ (0x80 + c / 64 % 64) ∷ (0x80 + c % 64) ∷ []

-- The code units of a code point: a pair of surrogates beyond the first plane.
unfoldable pub units_of : ℕ → ℕ
units_of c = if ltb c 0x10000 then 1 else 2

unfoldable pub bytes_of : ℕ → ℕ
bytes_of c = length (encode c)

unfoldable pub encode_text : List ℕ → List ℕ
encode_text [] = []
encode_text (c ∷ cs) = encode c ++ encode_text cs

unfoldable pub units_text : List ℕ → ℕ
units_text [] = 0
units_text (c ∷ cs) = units_of c + units_text cs

abbrev pub bytes_text : List ℕ → ℕ
bytes_text cs = length (encode_text cs)

-- Every code point is one of Unicode's.
abbrev pub AllUnicode : List ℕ → Type 0
AllUnicode [] = Unit {0}
AllUnicode (c ∷ cs) = (c < 0x110000) × AllUnicode cs

-- The buffer of a text, as `RKStringBufferWithString` fills it.
abbrev pub buffer_of : List ℕ → StringBuffer
buffer_of cs = record {
  units = units_text cs;
  characters = encode_text cs;
  length = bytes_text cs;
  encoding = utf8;
}

-- A character is a byte and a code unit long at least.
pub bytes_of-pos : (c : ℕ) → 0 < bytes_of c
unfolding bytes_of encode
bytes_of-pos c = ground arith

pub units_of-pos : (c : ℕ) → 0 < units_of c
unfolding units_of
units_of-pos c = ground arith

pub bytes_text-cons : (c : ℕ) (cs : List ℕ) → bytes_text (c ∷ cs) ≡ bytes_of c + bytes_text cs
unfolding encode_text bytes_of
bytes_text-cons c cs = length-append (encode c) (encode_text cs)

pub encode_text-append :
    (cs ds : List ℕ) → encode_text (cs ++ ds) ≡ encode_text cs ++ encode_text ds
unfolding encode_text
encode_text-append [] ds = refl
encode_text-append (c ∷ cs) ds =
    rw (encode_text-append cs ds) (sym (append_assoc (encode c) (encode_text cs) (encode_text ds)))

pub bytes_text-append : (cs ds : List ℕ) → bytes_text (cs ++ ds) ≡ bytes_text cs + bytes_text ds
unfolding encode_text
bytes_text-append [] ds = omega arith
bytes_text-append (c ∷ cs) ds =
    omega (arith, bytes_text-cons c cs, bytes_text-cons c (cs ++ ds), bytes_text-append cs ds)

pub units_text-append : (cs ds : List ℕ) → units_text (cs ++ ds) ≡ units_text cs + units_text ds
unfolding units_text
units_text-append [] ds = omega arith
units_text-append (c ∷ cs) ds = omega (arith, units_text-append cs ds)

pub length-le-bytes_text : (cs : List ℕ) → length cs ≤ bytes_text cs
length-le-bytes_text [] = omega arith
length-le-bytes_text (c ∷ cs) =
    omega (arith, bytes_text-cons c cs, bytes_of-pos c, length-le-bytes_text cs)

pub length-le-units_text : (cs : List ℕ) → length cs ≤ units_text cs
unfolding units_text
length-le-units_text [] = omega arith
length-le-units_text (c ∷ cs) = omega (arith, units_of-pos c, length-le-units_text cs)

units_of-le-bytes_of : (c : ℕ) → units_of c ≤ bytes_of c
unfolding units_of bytes_of encode
units_of-le-bytes_of c = ground arith

pub units_text-le-bytes_text : (cs : List ℕ) → units_text cs ≤ bytes_text cs
unfolding units_text
units_text-le-bytes_text [] = omega arith
units_text-le-bytes_text (c ∷ cs) =
    omega (arith, bytes_text-cons c cs, units_of-le-bytes_of c, units_text-le-bytes_text cs)
