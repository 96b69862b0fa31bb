-- ===== src/Foundation.antt =====
-- `NSRange` and `RKStringBuffer` (Source/Headers/RegexKit/NSStringPrivate.h), which the string code
-- passes around, for a 64-bit Foundation: `NSUInteger` is 64 bits wide and `NSNotFound` is its
-- largest signed value.
use regexkit.Base.{ℕ, ◌+◌, ◌-◌, ◌%◌, ◌^◌, Bool, true, false, List}

abbrev pub word : ℕ
word = 2 ^ 64

abbrev pub not_found : ℕ
not_found = 2 ^ 63 - 1

pub record NsRange : Type 0 where
  pub location : ℕ
  pub length : ℕ

abbrev pub make_range : ℕ → ℕ → NsRange
make_range l n = record { location = l; length = n }

-- `NSMaxRange`
abbrev pub max_range : NsRange → ℕ
max_range r = (r.location + r.length) % word

-- `a - b` at type `NSUInteger`
abbrev pub sub_word : ℕ → ℕ → ℕ
sub_word a b = (a + word - b) % word

pub data Encoding : Type 0 where
  mac_roman ascii utf8 : Encoding

-- The test `encoding == MacRoman || encoding == ASCII`.
abbrev pub is_single_byte : Encoding → Bool
is_single_byte mac_roman = true
is_single_byte ascii = true
is_single_byte utf8 = false

-- `units` is the length of the `NSString`, in UTF-16 code units; `characters` are the bytes up to
-- the terminating NUL, and `length` is their number.
pub record StringBuffer : Type 0 where
  pub units : ℕ
  pub characters : List ℕ
  pub length : ℕ
  pub encoding : Encoding
