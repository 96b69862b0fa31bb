-- ===== src/Enumerator/Header.antt =====
-- Source/Headers/RegexKit/RKEnumerator.h: the methods of `RKEnumerator`, by the groups of the
-- header, with what it documents of them. The methods that expand references, and the variants that
-- hand out an error, are left out.
use regexkit.Base.{
  bad_access, raise, ◌==◌, ◌>>=◌, if◌then◌else◌, ℕ, ◌≡◌, List, Option, some, none, get_or, Outcome,
  ok,
}
use regexkit.Foundation.{NsRange, make_range, StringBuffer}
use regexkit.Enumerator.Answers.{Matcher}
use regexkit.Enumerator.{not_found, Enumerator, no_range}
use regexkit.Enumerator.Progress.{Steps}

-- "Creating Regular Expression Enumerators", for a regex and a string.
pub record CreatingMethods : Type 0 where
  pub enumerator_with_string : Outcome Enumerator
  pub enumerator_in_range : NsRange → Outcome Enumerator
  pub init_with_string : Outcome Enumerator
  pub init_in_range : NsRange → Outcome Enumerator

-- "Current Match Information"
pub record CurrentMethods : Type 0 where
  pub current_range : Enumerator → Outcome NsRange
  pub current_range_for_capture : Enumerator → ℕ → Outcome NsRange
  pub current_range_for_capture_name : Enumerator → Option (List ℕ) → Outcome NsRange
  pub current_ranges : Enumerator → Outcome (Option (List NsRange))

-- "Advancing to the Next Match"
pub record AdvancingMethods : Type 0 where
  pub next_object : Enumerator → Outcome (Enumerator × Option (List NsRange))
  pub next_range : Enumerator → Outcome (Enumerator × NsRange)
  pub next_range_for_capture : Enumerator → ℕ → Outcome (Enumerator × NsRange)
  pub next_range_for_capture_name : Enumerator → Option (List ℕ) → Outcome (Enumerator × NsRange)
  pub next_ranges : Enumerator → Outcome (Enumerator × Option (List NsRange))

-- "Invokes initWithRegex:string:inRange: for the entire range of initString." The others are a
-- "Convenience method that returns an autoreleased RKEnumerator object initialized" so.
pub record CreatingDocumented (text : StringBuffer) (ops : CreatingMethods) : Type 0 where
  pub entire : ops.init_with_string ≡ ops.init_in_range (make_range 0 text.units)
  pub convenient : (r : NsRange) → ops.enumerator_in_range r ≡ ops.init_in_range r
  pub convenient_entire : ops.enumerator_with_string ≡ ops.init_with_string

-- The range of a capture in an object of the enumeration: `{NSNotFound, 0}` where there is none.
abbrev pub range_in : Option (List NsRange) → ℕ → NsRange
range_in none capture = no_range
range_in (some ranges) capture = get_or ranges capture no_range

-- The same by a name of the capture: where the capture did not match, memory behind the ranges is
-- read, which the header does not say.
abbrev pub named_range : Enumerator → Option (List NsRange) → ℕ → Outcome NsRange
named_range e none capture = ok no_range
named_range e (some ranges) capture =
    if (get_or e.utf8_ranges capture no_range).location == not_found
    then raise bad_access
    else ok (get_or ranges capture no_range)

module _ (M : Matcher) (text : StringBuffer) where
  -- "Returns the range of the current match", and "{NSNotFound, 0} if receiver has enumerated all
  -- the matches": `object` is what the last call of `nextObject` answered, and
  -- `name` is the name of the capture.
  pub record CurrentDocumented (ops : CurrentMethods) (e : Enumerator)
      (object : Option (List NsRange)) (capture : ℕ) (name : List ℕ) : Type 0 where
    pub whole : ops.current_range e ≡ ok (range_in object 0)
    pub for_capture : ops.current_range_for_capture e capture ≡ ok (range_in object capture)
    pub for_name : ops.current_range_for_capture_name e (some name) ≡ named_range e object capture
    pub all : ops.current_ranges e ≡ ok object

  -- "Advances to the next match of the receivers regular expression and returns" what the group
  -- above returns then: all methods make the same step.
  pub record AdvancingDocumented (ops : AdvancingMethods) (e next : Enumerator)
      (object : Option (List NsRange)) (capture : ℕ) (name : List ℕ) : Type 0 where
    pub step : Steps M text e next object
    pub next_object : ops.next_object e ≡ ok (next, object)
    pub next_range : ops.next_range e ≡ ok (next, range_in object 0)
    pub next_range_for_capture :
        ops.next_range_for_capture e capture ≡ ok (next, range_in object capture)
    pub next_range_for_capture_name :
        ops.next_range_for_capture_name e (some name)
        ≡ (named_range next object capture >>= λ r. ok (next, r))
    pub next_ranges : ops.next_ranges e ≡ ok (next, object)
