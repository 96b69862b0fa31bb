-- ===== src/Additions.antt =====
-- What the additions to strings, data and objects have in common: the regex for an argument
-- (Source/RKRegex.m, `RKRegexFromStringOrRegex`), and a match with it.
pub mod Data
pub mod DataHeader
pub mod DataDocumented
pub mod Strings
pub mod StringsHeader
pub mod Pieces
pub mod StringsDocumented
pub mod ObjectsHeader
pub mod Objects
pub mod AnyMatching
pub mod ObjectsDocumented
use regexkit.Base.{
  ℕ, ◌==◌, if◌then◌else◌, Bool, Option, none, some, List, length, Outcome, ok, raise, ◌>>=◌,
  invalid_argument, regex_syntax,
}
use regexkit.Foundation.{NsRange}
use regexkit.Regex.{Memory, MatchCode}
use regexkit.Regex.Matching.{MatchCall}
use Prim.Native.Nat.{bit_and, bit_or}

-- The regexes of a process. `cached` is the lookup in the regex cache for a string and options,
-- `compile` the initialiser, `none` where it hands out an error, and `exec` is `pcre_exec` for a
-- regex, options and characters.
pub record Regexes : Type 1 where
  pub Regex : Type 0
  pub regex_string : Regex → List ℕ
  pub compile_option : Regex → ℕ
  pub capture_count : Regex → ℕ
  pub cached : List ℕ → ℕ → Option Regex
  pub compile : List ℕ → ℕ → Option Regex
  pub exec : Regex → ℕ → List ℕ → ℕ → ℕ → Memory → MatchCode × Memory

-- The argument `aRegex`: a string, a regex, `NULL`, or an object of another class.
pub data RegexArgument (R : Type 0) : Type 0 where
  string : List ℕ → RegexArgument R
  object : R → RegexArgument R
  null other : RegexArgument R

-- The memory that a match is given.
pub record Resources : Type 0 where
  pub stack : Memory
  pub no_stack : Bool
  pub no_memory : Bool

module _ (W : Regexes) where
  open W use {Regex, regex_string, compile_option, capture_count, cached, compile, exec}

  -- The branch for a string: the cached regex, or else a new one.
  unfoldable pub from_string : List ℕ → ℕ → Option Regex
  from_string s option = elim (cached s option) [ none ↦ compile s option | some r ↦ some r ]

  -- `RKRegexFromStringOrRegexWithError`; `none` is the answer with an `NSError`.
  unfoldable pub from_string_or_regex_with_error : RegexArgument Regex → ℕ → Outcome (Option Regex)
  from_string_or_regex_with_error (string s) option = ok (from_string s option)
  from_string_or_regex_with_error (object r) option =
      if bit_and (compile_option r) option == option
      then ok (some r)
      else ok (from_string (regex_string r) (bit_or (compile_option r) option))
  from_string_or_regex_with_error null option = raise invalid_argument
  from_string_or_regex_with_error other option = raise invalid_argument

  abbrev or_syntax : Option Regex → Outcome Regex
  or_syntax none = raise regex_syntax
  or_syntax (some r) = ok r

  -- `RKRegexFromStringOrRegex`
  unfoldable pub from_string_or_regex : RegexArgument Regex → ℕ → Outcome Regex
  from_string_or_regex a option = from_string_or_regex_with_error a option >>= or_syntax

  -- A match of a regex in bytes; `no_bytes` says whether the pointer to them is `NULL`.
  abbrev pub match_call : Regex → ℕ → Resources → Bool → List ℕ → NsRange → MatchCall
  match_call r options resources no_bytes bytes search = record {
    exec = exec r options bytes;
    captures = capture_count r;
    stack = resources.stack;
    no_stack = resources.no_stack;
    no_memory = resources.no_memory;
    no_characters = no_bytes;
    length = length bytes;
    search = search;
  }
