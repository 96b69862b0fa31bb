-- ===== src/StackGuard.antt =====
-- Source/RK_stack_chk.c: the stack guard that is set up when the library is loaded. `long` has 8
-- bytes. What `dlsym`, `open` and `read` answer are parameters.
pub mod Canary
use regexkit.Base.{
  ℕ, ◌==◌, Bool, true, false, not, ◌&&◌, Option, some, none, List, [], ◌∷◌, ◌++◌, if◌then◌else◌,
  length, take, drop, set,
}

-- `long __stack_chk_guard[8]`, as its bytes.
abbrev pub guard_size : ℕ
guard_size = 64

-- Whether all the bytes are zero.
abbrev pub is_zero : List ℕ → Bool
is_zero [] = true
is_zero (b ∷ bs) = (b == 0) && is_zero bs

-- `__stack_chk_guard[0] != 0`
abbrev pub is_set : List ℕ → Bool
is_set guard = not (is_zero (take 8 guard))

-- What `read` answers: `-1` is `failed`, and otherwise the bytes that it stores.
pub data ReadResult : Type 0 where
  failed : ReadResult
  stored : List ℕ → ReadResult

-- The guard after `read`.
unfoldable pub after_read : List ℕ → ReadResult → List ℕ
after_read guard failed = guard
after_read guard (stored bytes) = bytes ++ drop (length bytes) guard

-- `size == sizeof(__stack_chk_guard)`
abbrev pub is_full : ReadResult → Bool
is_full failed = false
is_full (stored bytes) = length bytes == guard_size

-- The "terminator canary": the first four bytes.
unfoldable pub terminate : List ℕ → List ℕ
terminate guard = set (set (set (set guard 0 0) 1 0) 2 10) 3 255

-- The guard from "/dev/urandom", where it was opened.
unfoldable pub from_random : List ℕ → Option ReadResult → List ℕ
from_random guard none = terminate guard
from_random guard (some r) =
    let now = after_read guard r in if is_full r && is_set now then now else terminate now

-- `__rk_guard_setup`. `other` is the guard that `dlsym` finds in the other libraries, and
-- `random` is what `read` answers, or `none` where `open` fails.
unfoldable pub guard_setup : Option (List ℕ) → Option ReadResult → List ℕ → List ℕ
guard_setup (some other) random guard = other
guard_setup none random guard = if is_set guard then guard else from_random guard random
