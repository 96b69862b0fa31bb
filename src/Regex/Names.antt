-- ===== src/Regex/Names.antt =====
-- The search of a capture name in `RKCaptureIndexForCaptureNameCharactersWithError` of
-- Source/RKRegex.m, in the table of names that pcre gives. Names are lists of bytes without a NUL.
use Prim.Native.Nat.{compare, Ordering, lt, eq, gt}
use regexkit.Foundation.{word}
use regexkit.Base.{
  ◌-◌, ◌%◌, ◌*◌, ℕ, zero, suc, ◌+◌, ◌/◌, true, false, ltb, ◌==◌, if◌then◌else◌, Option, some, none,
  List, [], ◌∷◌, get_or, length, Outcome, ok, out_of_fuel,
}

-- An entry of `captureNameTable`: two bytes, and the name behind them.
pub record NameEntry : Type 0 where
  pub high : ℕ
  pub low : ℕ
  pub name : List ℕ

abbrev pub no_entry : NameEntry
no_entry = record { high = 0; low = 0; name = [] }

-- A byte of a table of `char`, which is signed, as a word.
abbrev pub signed_char : ℕ → ℕ
signed_char b = if ltb b 128 then b else word - 256 + b

-- `(atCaptureName[0] << 8) + atCaptureName[1]`, as a word.
unfoldable pub entry_index : NameEntry → ℕ
entry_index e = (signed_char e.high * 256 + signed_char e.low) % word

abbrev pub name_at : List NameEntry → ℕ → List ℕ
name_at table i = (get_or table i no_entry).name

-- `compareResult`: that of `strncmp` for the characters asked for, and -1 where these are equal to
-- the start of a longer name.
unfoldable pub compare_names : List ℕ → List ℕ → Ordering
compare_names [] [] = eq
compare_names [] (x ∷ xs) = lt
compare_names (k ∷ ks) [] = gt
compare_names (k ∷ ks) (x ∷ xs) = elim (compare k x) [
  | lt ↦ lt
  | eq ↦ compare_names ks xs
  | gt ↦ gt
]

-- The loop from `searchBottom` to `searchTop`: `searchMiddle` where it ends at `validName`.
unfoldable pub search_names : ℕ → List NameEntry → List ℕ → ℕ → ℕ → Outcome (Option ℕ)
search_names zero table key bottom top = out_of_fuel
search_names (suc fuel) table key bottom top = elim (ltb bottom top) [
  | false ↦ ok none
  | true ↦ elim (compare_names key (name_at table ((top + bottom) / 2))) [
    | eq ↦ ok (some ((top + bottom) / 2))
    | gt ↦ search_names fuel table key ((top + bottom) / 2 + 1) top
    | lt ↦ search_names fuel table key bottom ((top + bottom) / 2)
  ]
]

-- The search over the whole table, with the checks in front of it; `entry_size` is
-- `captureNameLength`. Each round makes the part that is searched smaller.
unfoldable pub find_name : List NameEntry → ℕ → List ℕ → Outcome (Option ℕ)
find_name table entry_size key =
    if length table == 0
    then ok none
    else if ltb entry_size (length key)
    then ok none
    else search_names (suc (length table)) table key 0 (length table)
