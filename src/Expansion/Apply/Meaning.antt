-- ===== src/Expansion/Apply/Meaning.antt =====
-- What the instructions of a reference string mean as text.
use regexkit.Base.{
  length, ltb, ◌||◌, Bool, false, ℕ, Bool, false, List, [], ◌∷◌, ◌++◌, take, drop, if◌then◌else◌,
  get_or,
}
use regexkit.Unicode.{length_of_utf8_character}
use regexkit.Expansion.Apply.{
  is_empty, LetterCase, Instruction, copy_range, copy_capture_index, copy_capture_name,
  convert_next, convert_from, convert_end, stop, same_case, c_string, Captures, text_of, is_empty,
}

-- What the text that comes next is subject to: nothing, the conversion of its first character, or
-- that of all of it up to the end of the conversion, with the text collected so far.
pub data Mode : Type 0 where
  plain : Mode
  first : LetterCase → Mode
  span : LetterCase → List ℕ → Mode

-- An instruction for one match.
pub data Item : Type 0 where
  text : List ℕ → Item
  next_only from_here : LetterCase → Item
  up_to_here : Item
  finish : Item

unfoldable pub item_of : Captures → Instruction → Item
item_of m (copy_range t) = text (text_of m (copy_range t))
item_of m (copy_capture_index n) = text (text_of m (copy_capture_index n))
item_of m (copy_capture_name name) = text (text_of m (copy_capture_name name))
item_of m (convert_next c) = next_only c
item_of m (convert_from c) = from_here c
item_of m convert_end = up_to_here
item_of m stop = finish

-- Whether an item is an empty text, or one that is shorter than its first byte says of its character.
abbrev pub is_broken_text : Item → Bool
is_broken_text (text t) = is_empty t || ltb (length t) (length_of_utf8_character (get_or t 0 0))
is_broken_text (next_only d) = false
is_broken_text (from_here d) = false
is_broken_text up_to_here = false
is_broken_text finish = false

module _ (convert : LetterCase → List ℕ → List ℕ) where
  abbrev pub converted : LetterCase → List ℕ → List ℕ
  converted c [] = []
  converted c (x ∷ xs) = c_string (convert c (x ∷ xs))

  abbrev pub with_first : LetterCase → List ℕ → List ℕ
  with_first c t =
      let n = length_of_utf8_character (get_or t 0 0) in c_string (convert c (take n t)) ++ drop n t

  -- The mode behind an item.
  unfoldable pub behind : Mode → Item → Mode
  behind plain (text t) = plain
  behind (first c) (text t) = plain
  behind (span c acc) (text t) = span c (acc ++ t)
  behind plain (next_only d) = first d
  behind (first c) (next_only d) = first d
  behind (span c acc) (next_only d) = first d
  behind plain (from_here d) = span d []
  behind (first c) (from_here d) = span d []
  behind (span c acc) (from_here d) = if same_case c d then span c acc else span d []
  behind plain up_to_here = plain
  behind (first c) up_to_here = plain
  behind (span c acc) up_to_here = plain
  behind plain finish = plain
  behind (first c) finish = plain
  behind (span c acc) finish = plain

  -- The text that an item gives.
  unfoldable pub given : Mode → Item → List ℕ
  given plain (text t) = t
  given (first c) (text t) = with_first c t
  given (span c acc) (text t) = []
  given plain (next_only d) = []
  given (first c) (next_only d) = []
  given (span c acc) (next_only d) = converted c acc
  given plain (from_here d) = []
  given (first c) (from_here d) = []
  given (span c acc) (from_here d) = if same_case c d then [] else converted c acc
  given plain up_to_here = []
  given (first c) up_to_here = []
  given (span c acc) up_to_here = converted c acc
  given plain finish = []
  given (first c) finish = []
  given (span c acc) finish = converted c acc

  -- The text of a list of items, up to the first that finishes it.
  unfoldable pub meaning : Mode → List Item → List ℕ
  meaning mode [] = []
  meaning mode (text t ∷ is) = given mode (text t) ++ meaning (behind mode (text t)) is
  meaning mode (next_only d ∷ is) =
      given mode (next_only d) ++ meaning (behind mode (next_only d)) is
  meaning mode (from_here d ∷ is) =
      given mode (from_here d) ++ meaning (behind mode (from_here d)) is
  meaning mode (up_to_here ∷ is) = given mode up_to_here ++ meaning (behind mode up_to_here) is
  meaning mode (finish ∷ is) = given mode finish
