-- ===== src/RangeMacros.antt =====
-- The macros of Source/Headers/RegexKit/RegexKitPrivate.h: the smaller and the larger of two, those
-- on ranges, and the hash of a regex.
pub mod Bounds
use regexkit.Base.{
  ℕ, ◌-◌, ◌+◌, ◌%◌, ◌==◌, ltb, leb, Bool, true, false, ◌&&◌, Option, some, none, if◌then◌else◌,
}
use regexkit.Foundation.{NsRange, make_range, max_range, sub_word, word}
use Prim.Native.Nat.{bit_xor}

-- `max(a,b)`, `min(a,b)` at an unsigned type; each argument is evaluated once.
unfoldable pub max : ℕ → ℕ → ℕ
max a b = if ltb b a then a else b

unfoldable pub min : ℕ → ℕ → ℕ
min a b = if ltb a b then a else b

-- `NSEqualRanges`
unfoldable pub equal_ranges : NsRange → NsRange → Bool
equal_ranges r s = (r.location == s.location) && (r.length == s.length)

-- `NSLocationInRange(loc, r)`, whose body reads `_lpc` where it means its own `_loc`: `lpc` is what
-- that name means where the macro is used.
unfoldable pub location_in_range : ℕ → ℕ → NsRange → Bool
location_in_range lpc loc r = ltb (sub_word lpc r.location) r.length

-- `RKRangeInsideRange`
unfoldable pub range_inside_range : NsRange → NsRange → Bool
range_inside_range inside within =
    leb (sub_word inside.location within.location) within.length
    && leb (sub_word (max_range inside) within.location) within.length

-- `RKHashForStringAndCompileOption`; `hash` is that of the string, and `none` is `NULL`.
unfoldable pub hash_for_string_and_compile_option : Option ℕ → ℕ → ℕ
hash_for_string_and_compile_option none option = option
hash_for_string_and_compile_option (some hash) option = bit_xor hash option
