-- ===== src/Unicode/Walk.antt =====
-- A buffer read character by character: at an offset stand the characters of a text, each with the
-- length and the code units that the tables give for its first byte.
use regexkit.Base.{
  ℕ, zero, suc, ◌+◌, ◌/◌, ◌<◌, ltb, ◌==◌, if◌then◌else◌, Bool, true, ◌&&◌, List, [], ◌∷◌, ◌++◌, ◌≡◌,
  refl, arith, length, length-append, append_assoc,
}
use native.Mathlib.Nat.{add_assoc, add-zero}
use regexkit.Unicode.{extra_bytes, extra_units, byte_at}
use regexkit.Unicode.Text.{encode, bytes_of, units_of, encode_text, bytes_text, AllUnicode}

-- What the tables say of a byte that starts a character, by the standard's ranges.
abbrev row : ℕ → Bool
row b =
    if ltb b 0x80
    then (extra_bytes b == 0) && (extra_units b == 0)
    else if ltb b 0xc0
    then true
    else if ltb b 0xe0
    then (extra_bytes b == 1) && (extra_units b == 0)
    else if ltb b 0xf0
    then (extra_bytes b == 2) && (extra_units b == 0)
    else if ltb b 0xf8
    then (extra_bytes b == 3) && (extra_units b == 1)
    else true

-- The rows of the bytes below `n` are as the standard has them.
rows_hold : ℕ → Bool
rows_hold zero = true
rows_hold (suc b) = row b && rows_hold b

all_rows_hold : rows_hold 256 ≡ true
unfolding rows_hold extra_bytes extra_units
all_rows_hold = refl

row_below : (n b : ℕ) → b < n → rows_hold n ≡ true → row b ≡ true
unfolding rows_hold
row_below zero b lt all = absurd (omega arith)
row_below (suc n) b lt all = ground (arith, row_below n b)

-- The first byte of a character's UTF-8 form.
unfoldable pub lead : ℕ → ℕ
lead c =
    if ltb c 0x80
    then c
    else if ltb c 0x800
    then 0xc0 + c / 64
    else if ltb c 0x10000
    then 0xe0 + c / 4096
    else 0xf0 + c / 262144

lead-lt : (c : ℕ) → c < 0x110000 → lead c < 256
unfolding lead
lead-lt c h = ground arith

-- The tables agree with the standard on every code point.
pub extra-lead :
    (c : ℕ)
    → c < 0x110000
    → (suc (extra_bytes (lead c)) ≡ bytes_of c) × (suc (extra_units (lead c)) ≡ units_of c)
unfolding bytes_of lead encode units_of
extra-lead c h = ground (arith, row_below 256 (lead c) (lead-lt c h) all_rows_hold)

byte_at-encode : (c : ℕ) (rest : List ℕ) → byte_at (encode c ++ rest) 0 ≡ lead c
unfolding encode lead
byte_at-encode c rest = ground arith

-- At offset `p` of `bytes` the walk meets the characters of the text, one behind the other.
abbrev pub Walk : List ℕ → ℕ → List ℕ → Type 0
Walk bytes p [] = Unit {0}
Walk bytes p (c ∷ cs) =
    (suc (extra_bytes (byte_at bytes p)) ≡ bytes_of c)
    × (suc (extra_units (byte_at bytes p)) ≡ units_of c)
    × Walk bytes (p + bytes_of c) cs

pub byte_at-lead :
    (pre : List ℕ) (c : ℕ) (rest : List ℕ)
    → byte_at (pre ++ (encode c ++ rest)) (length pre) ≡ lead c
byte_at-lead [] c rest = byte_at-encode c rest
byte_at-lead (x ∷ pre) c rest = byte_at-lead pre c rest

Walk-behind : (pre cs : List ℕ) → AllUnicode cs → Walk (pre ++ encode_text cs) (length pre) cs
unfolding encode_text bytes_of
Walk-behind pre [] u = tt
Walk-behind pre (c ∷ cs) u =
    let next : Walk (pre ++ (encode c ++ encode_text cs)) (length pre + length (encode c)) cs =
      rw (append_assoc pre (encode c) (encode_text cs), length-append pre (encode c)) at
        (Walk-behind (pre ++ encode c) cs u.1) in
    rw (byte_at-lead pre c (encode_text cs)) ((extra-lead c u.0).0, (extra-lead c u.0).1, next)

-- A text's own bytes are walked from their start.
pub Walk-text : (cs : List ℕ) → AllUnicode cs → Walk (encode_text cs) 0 cs
Walk-text cs u = Walk-behind [] cs u

pub Walk-append :
    (bytes : List ℕ) (p : ℕ) (cs ds : List ℕ)
    → Walk bytes p (cs ++ ds)
    → Walk bytes p cs × Walk bytes (p + bytes_text cs) ds
unfolding encode_text bytes_of
Walk-append bytes p [] ds w = (tt, rw add-zero w)
Walk-append bytes p (c ∷ cs) ds w =
    let rest = Walk-append bytes (p + bytes_of c) cs ds w.2 in
    (
      (w.0, w.1, rest.0),
      rw (length-append (encode c) (encode_text cs), ← add_assoc p (bytes_of c) (bytes_text cs))
          rest.1,
    )
