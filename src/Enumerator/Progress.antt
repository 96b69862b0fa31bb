-- ===== src/Enumerator/Progress.antt =====
-- How far the calls of an enumerator come: with matches that are not empty they come to an end, and
-- an empty match is answered again and again.
use regexkit.Base.{
  ℕ, zero, suc, ◌+◌, ◌≡◌, ◌≤◌, ◌<◌, refl, sym, ap, ◌∙◌, true, false, ◌==◌, Option, some, none,
  Option-cases, List, [], ◌∷◌, get_or, Outcome, ok, out_of_fuel, ◌>>=◌, arith, inl, inr,
}
use regexkit.Foundation.{NsRange, make_range, max_range, not_found, sub_word, StringBuffer}
use regexkit.Enumerator.Answers.{Matcher}
use regexkit.Enumerator.{
  Enumerator, no_range, convert_all, take_match, update_to_next_match, next_object,
  release_all_resources,
}

-- The range of the whole match.
abbrev pub whole : List NsRange → NsRange
whole ranges = get_or ranges 0 no_range

-- What is asked of a regex on a text: within the text, a match is within the range that is searched,
-- and the ranges of its captures can be converted.
pub record IsSound (M : Matcher) (text : StringBuffer) : Type 0 where
  pub starts :
      (r : NsRange) (ranges : List NsRange)
      → r.location + r.length ≤ text.length
      → M.get_ranges r ≡ some ranges
      → r.location ≤ (whole ranges).location
  pub ends :
      (r : NsRange) (ranges : List NsRange)
      → r.location + r.length ≤ text.length
      → M.get_ranges r ≡ some ranges
      → (whole ranges).location + (whole ranges).length ≤ r.location + r.length
  pub converts :
      (r : NsRange) (ranges : List NsRange)
      → r.location + r.length ≤ text.length
      → M.get_ranges r ≡ some ranges
      → (converted : List NsRange) × (convert_all M text ranges ≡ ok converted)

-- An enumerator in the midst of its search.
pub record IsActive (text : StringBuffer) (e : Enumerator) : Type 0 where
  pub within : e.search.location + e.search.length ≤ text.length
  pub small : text.length < not_found
  pub reached : e.at ≤ e.search.location + e.search.length

module _ (M : Matcher) (text : StringBuffer) where
  add_object : Option (List NsRange) → Outcome (List (List NsRange)) → Outcome (List (List NsRange))
  add_object none rest = ok []
  add_object (some ranges) rest = rest >>= λ others. ok (ranges ∷ others)

  -- The objects of a loop that calls `nextObject` until it answers `NULL`.
  pub all_objects : ℕ → Enumerator → Outcome (List (List NsRange))
  all_objects zero e = out_of_fuel
  all_objects (suc fuel) e =
      next_object M text e >>= λ (next, object). add_object object (all_objects fuel next)

  abbrev pub rest_of : Enumerator → NsRange
  rest_of e = make_range e.at (sub_word (max_range e.search) e.at)

  abbrev pub after : Enumerator → List NsRange → List NsRange → Enumerator
  after e ranges converted = record e {
    at = (whole ranges).location + (whole ranges).length;
    utf8_ranges = ranges;
    utf16_ranges = converted;
    has_performed_match = true;
  }

  pub next_object-none :
      (e : Enumerator)
      → IsActive text e
      → M.get_ranges (rest_of e) ≡ none
      → next_object M text e
        ≡ ok (release_all_resources M text (record e { has_performed_match = true }), none)
  unfolding next_object update_to_next_match take_match
  next_object-none e v q =
      let going : (e.at == not_found) ≡ false = ground (arith, v.within, v.small, v.reached) in
      rw (going, q) refl

  pub next_object-some :
      (e : Enumerator) (ranges converted : List NsRange)
      → IsActive text e
      → M.get_ranges (rest_of e) ≡ some ranges
      → convert_all M text ranges ≡ ok converted
      → next_object M text e ≡ ok (after e ranges converted, some converted)
  unfolding next_object update_to_next_match take_match
  next_object-some e ranges converted v q c =
      let going : (e.at == not_found) ≡ false = ground (arith, v.within, v.small, v.reached) in
      rw (going, q, c) refl

  rest-end :
      (e : Enumerator)
      → IsActive text e
      → (rest_of e).location + (rest_of e).length ≡ e.search.location + e.search.length
  rest-end e v = omega (arith, v.within, v.small, v.reached)

  pub after-IsActive :
      (e : Enumerator) (ranges converted : List NsRange)
      → IsSound M text
      → IsActive text e
      → M.get_ranges (rest_of e) ≡ some ranges
      → IsActive text (after e ranges converted)
  after-IsActive e ranges converted sound v q =
      let inside : (rest_of e).location + (rest_of e).length ≤ text.length =
        omega (arith, rest-end e v, v.within) in
      record {
        within = v.within;
        small = v.small;
        reached = omega (arith, sound.ends (rest_of e) ranges inside q, rest-end e v);
      }

  pub rest-inside :
      (e : Enumerator) → IsActive text e → (rest_of e).location + (rest_of e).length ≤ text.length
  rest-inside e v = omega (arith, rest-end e v, v.within)

  -- One step of an enumeration: it is over, or the next match lies behind the ones before it.
  pub data Steps (e : Enumerator) : Enumerator → Option (List NsRange) → Type 0 where
    over : (next : Enumerator) → next.at ≡ not_found → Steps e next none
    on :
        (next : Enumerator)
        → e.at ≤ (whole next.utf8_ranges).location
        → next.at ≡ (whole next.utf8_ranges).location + (whole next.utf8_ranges).length
        → convert_all M text next.utf8_ranges ≡ ok next.utf16_ranges
        → IsActive text next
        → Steps e next (some next.utf16_ranges)

  -- Where no match is empty, a loop over an enumerator comes to its end: it makes at most one call
  -- more than there are bytes left to search.
  pub all_objects-enough :
      (fuel : ℕ) (e : Enumerator)
      → IsSound M text
      → ((r : NsRange) (ranges : List NsRange)
          → M.get_ranges r ≡ some ranges
          → 0 < (whole ranges).length)
      → IsActive text e
      → e.search.location + e.search.length < fuel + e.at
      → (objects : List (List NsRange)) × (all_objects fuel e ≡ ok objects)
  unfolding all_objects add_object
  all_objects-enough zero e sound filled v enough = absurd (omega (arith, v.reached, enough))
  all_objects-enough (suc fuel) e sound filled v enough =
      elim (Option-cases (M.get_ranges (rest_of e))) [
        | inl q ↦ ([], rw (next_object-none e v q) refl)
        | inr (ranges, q) ↦
            let (converted, c) = sound.converts (rest_of e) ranges (rest-inside e v) q in
            let (others, d) =
              all_objects-enough fuel (after e ranges converted) sound filled
                (after-IsActive e ranges converted sound v q)
                (omega (
                  arith,
                  enough,
                  filled (rest_of e) ranges q,
                  sound.starts (rest_of e) ranges (rest-inside e v) q,
                )) in
            (converted ∷ others, rw (next_object-some e ranges converted v q c, d) refl)
      ]

  -- An empty match where the search stands is answered forever: no number of calls reaches the end.
  pub all_objects-empty :
      (fuel : ℕ) (e : Enumerator) (ranges converted : List NsRange)
      → IsActive text e
      → M.get_ranges (rest_of e) ≡ some ranges
      → whole ranges ≡ make_range e.at 0
      → convert_all M text ranges ≡ ok converted
      → all_objects fuel e ≡ out_of_fuel
  unfolding all_objects add_object
  all_objects-empty zero e ranges converted v q empty c = refl
  all_objects-empty (suc fuel) e ranges converted v q empty c =
      let stays : (after e ranges converted).at ≡ e.at =
        ap (λ r. r.location + r.length) empty ∙ omega arith in
      let again =
        all_objects-empty fuel (after e ranges converted) ranges converted
          (record { within = v.within; small = v.small; reached = omega (arith, stays, v.reached) })
          (ap (λ a. M.get_ranges (make_range a (sub_word (max_range e.search) a))) stays ∙ q)
          (empty ∙ ap (λ a. make_range a 0) (sym stays)) c in
      rw (next_object-some e ranges converted v q c, again) refl
