-- ===== src/Regex/Matching.antt =====
-- "Regex Matching Methods" of Source/RKRegex.m: the methods that ask for one range, for all of them,
-- or whether there is a match, over the private `getRanges:count:…`. Each has a form that hands out
-- an `NSError` and one that raises an exception for it.
use regexkit.Base.{
  ℕ, zero, suc, leb, Bool, true, false, not, if◌then◌else◌, Option, some, none, List, [], ◌∷◌, ◌++◌,
  drop, Outcome, ok, raise, ◌>>=◌, invalid_argument, malloc_exception,
}
use regexkit.Foundation.{NsRange, make_range, not_found}
use regexkit.RangeMacros.{range_inside_range, equal_ranges}
use regexkit.Regex.{Memory, MatchCode, results, failed, read_range, get_ranges}

-- The domain of an `NSError`: NSPOSIXErrorDomain, the framework's own, RKRegexPCRELibraryErrorDomain.
pub data ErrorDomain : Type 0 where
  posix_domain regexkit_domain pcre_domain : ErrorDomain

-- A regex and the arguments that all methods share. `exec` is `pcre_exec` for the regex, the
-- characters and the options; `stack` is the memory that `alloca` hands out, as it is then.
pub record MatchCall : Type 0 where
  pub exec : ℕ → ℕ → Memory → MatchCode × Memory
  pub captures : ℕ
  pub stack : Memory
  pub no_stack : Bool  -- whether `alloca` answers `NULL`
  pub no_memory : Bool  -- whether the memory for the answer cannot be had
  pub no_characters : Bool  -- whether `matchCharacters` is `NULL`
  pub length : ℕ
  pub search : NsRange

-- `NSMakeRange(NSNotFound, 0)`
abbrev pub nowhere : NsRange
nowhere = make_range not_found 0

-- The error that the private method hands out.
abbrev pub pcre_error : Bool → Option ErrorDomain
pcre_error true = some pcre_domain
pcre_error false = none

-- The private method, for the memory from `alloca`.
unfoldable pub ask : MatchCall → Outcome (MatchCode × Memory × Bool)
ask c = get_ranges c.exec c.captures false c.no_characters c.stack c.length c.search

-- The lines of the methods without an error behind the call of those with one.
unfoldable pub raise_unless_pcre : {A : Type 0} → A × Option ErrorDomain → Outcome A
raise_unless_pcre (a, none) = ok a
raise_unless_pcre (a, some posix_domain) = raise malloc_exception
raise_unless_pcre (a, some regexkit_domain) = raise invalid_argument
raise_unless_pcre (a, some pcre_domain) = ok a

-- Behind the call of the private method in `rangeForCharacters:…error:`.
unfoldable pub range_answer : NsRange → ℕ → MatchCode × Memory × Bool → NsRange × Option ErrorDomain
range_answer search capture (failed n, m, error) = (nowhere, pcre_error error)
range_answer search capture (results n, m, error) =
    if range_inside_range (read_range m 0) search
    then (read_range m capture, pcre_error error)
    else (nowhere, pcre_error error)

unfoldable pub range_for_characters_error : MatchCall → ℕ → Outcome (NsRange × Option ErrorDomain)
range_for_characters_error c capture =
    if c.no_stack
    then ok (nowhere, some posix_domain)
    else if leb c.captures capture
    then ok (nowhere, some regexkit_domain)
    else (ask c >>= λ answer. ok (range_answer c.search capture answer))

unfoldable pub range_for_characters : MatchCall → ℕ → Outcome NsRange
range_for_characters c capture = range_for_characters_error c capture >>= raise_unless_pcre

unfoldable pub matches_characters : MatchCall → Outcome Bool
matches_characters c = range_for_characters c 0 >>= λ r. ok (not (equal_ranges nowhere r))

unfoldable pub matches_characters_error : MatchCall → Outcome (Bool × Option ErrorDomain)
matches_characters_error c =
    range_for_characters_error c 0 >>= λ (r, error). ok (not (equal_ranges nowhere r), error)

-- `memcpy` of `n` ranges from range `x` on.
unfoldable pub copy_ranges : Memory → ℕ → ℕ → List NsRange
copy_ranges m x zero = []
copy_ranges m x (suc n) = read_range m x ∷ copy_ranges m (suc x) n

-- Behind the call of the private method in `rangesForCharacters:…error:`.
unfoldable pub ranges_answer :
    MatchCall → MatchCode × Memory × Bool → Option (List NsRange) × Option ErrorDomain
ranges_answer c (failed n, m, error) = (none, pcre_error error)
ranges_answer c (results n, m, error) =
    if c.no_memory
    then (none, some posix_domain)
    else (some (copy_ranges m 0 c.captures), pcre_error error)

unfoldable pub ranges_for_characters_error :
    MatchCall → Outcome (Option (List NsRange) × Option ErrorDomain)
ranges_for_characters_error c =
    if c.no_stack
    then ok (none, some posix_domain)
    else (ask c >>= λ answer. ok (ranges_answer c answer))

unfoldable pub ranges_for_characters : MatchCall → Outcome (Option (List NsRange))
ranges_for_characters c = ranges_for_characters_error c >>= raise_unless_pcre

-- The caller's ranges behind the call in the public `getRanges:…error:`.
unfoldable pub copy_answer :
    ℕ → List NsRange → MatchCode × Memory × Bool → (MatchCode × List NsRange) × Option ErrorDomain
copy_answer captures ranges (failed n, m, error) = ((failed n, ranges), pcre_error error)
copy_answer captures ranges (results n, m, error) =
    ((results n, copy_ranges m 0 captures ++ drop captures ranges), pcre_error error)

-- The public method; `none` is a `NULL`, and the code -6 is RKMatchErrorNoMemory.
unfoldable pub get_ranges_error :
    MatchCall → Option (List NsRange) → Outcome ((MatchCode × List NsRange) × Option ErrorDomain)
get_ranges_error c none = raise invalid_argument
get_ranges_error c (some ranges) =
    if c.no_stack
    then ok ((failed 6, ranges), some posix_domain)
    else (ask c >>= λ answer. ok (copy_answer c.captures ranges answer))

unfoldable pub get_ranges_raising :
    MatchCall → Option (List NsRange) → Outcome (MatchCode × List NsRange)
get_ranges_raising c ranges = get_ranges_error c ranges >>= raise_unless_pcre
