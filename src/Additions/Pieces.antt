-- ===== src/Additions/Pieces.antt =====
-- Ranges of bytes and of code units that are the same parts of a text.
use regexkit.Base.{
  ℕ, zero, suc, ◌<◌, ◌^◌, ◌≡◌, refl, Option, none, some, List, [], ◌∷◌, ◌++◌, get_or, ok,
}
use regexkit.Foundation.{NsRange, make_range}
use regexkit.Unicode.{convert_utf8_to_utf16_range}
use regexkit.Unicode.Text.{AllUnicode, buffer_of, bytes_text, units_text}
use regexkit.Unicode.ToUtf16.{convert_utf8_to_utf16_range-text}
use regexkit.Unicode.ToUtf8.{convert_utf16_to_utf8_range-text}
use regexkit.Regex.Matching.{nowhere}
use regexkit.Regex.Header.{range_in, is_match}
use regexkit.Additions.Strings.{utf8_to_16, utf16_to_8, each_to_16, ranges_to_16}

-- The bytes `r` and the code units `u` of a part `mid` of a text, or no range at all.
pub data IsPiece (text : List ℕ) (r u : NsRange) : Type 0 where
  piece :
      (pre mid post : List ℕ)
      → text ≡ pre ++ (mid ++ post)
      → r ≡ make_range (bytes_text pre) (bytes_text mid)
      → u ≡ make_range (units_text pre) (units_text mid)
      → IsPiece text r u
  unset : r ≡ nowhere → u ≡ nowhere → IsPiece text r u

pub data ArePieces (text : List ℕ) : List NsRange → List NsRange → Type 0 where
  done : ArePieces text [] []
  more :
      (r u : NsRange) (rs us : List NsRange)
      → IsPiece text r u
      → ArePieces text rs us
      → ArePieces text (r ∷ rs) (u ∷ us)

pub data SamePieces (text : List ℕ) : Option (List NsRange) → Option (List NsRange) → Type 0 where
  missing : SamePieces text none none
  found : (rs us : List NsRange) → ArePieces text rs us → SamePieces text (some rs) (some us)

module _ (text : List ℕ) (valid : AllUnicode text) (small : bytes_text text < 2 ^ 32) where
  piece_to_16 :
      (r u : NsRange) (pre mid post : List ℕ)
      → text ≡ pre ++ (mid ++ post)
      → r ≡ make_range (bytes_text pre) (bytes_text mid)
      → u ≡ make_range (units_text pre) (units_text mid)
      → utf8_to_16 (some (buffer_of text)) r ≡ ok u
  unfolding utf8_to_16
  piece_to_16 r u pre mid post e f g =
      rw (e, f, g) (convert_utf8_to_utf16_range-text pre mid post (rw (← e) valid) (rw (← e) small))

  pub piece_to_8 :
      (pre mid post : List ℕ)
      → text ≡ pre ++ (mid ++ post)
      → utf16_to_8 (some (buffer_of text)) (make_range (units_text pre) (units_text mid))
        ≡ ok (make_range (bytes_text pre) (bytes_text mid))
  unfolding utf16_to_8
  piece_to_8 pre mid post e =
      rw e (convert_utf16_to_utf8_range-text pre mid post (rw (← e) valid) (rw (← e) small))

  pub utf8_to_16-IsPiece :
      (r u : NsRange) → IsPiece text r u → utf8_to_16 (some (buffer_of text)) r ≡ ok u
  unfolding utf8_to_16 convert_utf8_to_utf16_range
  utf8_to_16-IsPiece r u (piece pre mid post e f g) = piece_to_16 r u pre mid post e f g
  utf8_to_16-IsPiece r u (unset e f) = rw (e, f) refl

  pub each_to_16-ArePieces :
      (rs us : List NsRange) → ArePieces text rs us → each_to_16 (buffer_of text) rs ≡ ok us
  unfolding each_to_16
  each_to_16-ArePieces rs us done = refl
  each_to_16-ArePieces rs us (more r u rs' us' p ps) =
      rw (utf8_to_16-IsPiece r u p, each_to_16-ArePieces rs' us' ps) refl

  pub ranges_to_16-SamePieces :
      (all units : Option (List NsRange))
      → SamePieces text all units
      → ranges_to_16 (buffer_of text) all ≡ ok units
  unfolding ranges_to_16
  ranges_to_16-SamePieces all units missing = refl
  ranges_to_16-SamePieces all units (found rs us p) = rw (each_to_16-ArePieces rs us p) refl

get_or-IsPiece :
    (text : List ℕ) (rs us : List NsRange) (x : ℕ)
    → ArePieces text rs us
    → IsPiece text (get_or rs x nowhere) (get_or us x nowhere)
get_or-IsPiece text rs us x done = unset refl refl
get_or-IsPiece text rs us zero (more r u rs' us' p ps) = p
get_or-IsPiece text rs us (suc x) (more r u rs' us' p ps) = get_or-IsPiece text rs' us' x ps

pub range_in-IsPiece :
    (text : List ℕ) (all units : Option (List NsRange)) (x : ℕ)
    → SamePieces text all units
    → IsPiece text (range_in all x) (range_in units x)
range_in-IsPiece text all units x missing = unset refl refl
range_in-IsPiece text all units x (found rs us p) = get_or-IsPiece text rs us x p

pub is_match-SamePieces :
    (text : List ℕ) (all units : Option (List NsRange))
    → SamePieces text all units
    → is_match all ≡ is_match units
is_match-SamePieces text all units missing = refl
is_match-SamePieces text all units (found rs us p) = refl
