-- ===== src/Route/Text.antt =====
-- The functions on text that audio_route.c calls.
use earport_handoff.Base.{
  ℕ, Bool, true, ◌&&◌, ◌||◌, List, [], ◌∷◌, ◌==◌, map, leb, has_prefix, if◌then◌else◌,
}
use earport_handoff.Base.Text.{Bytes, lower}

-- `g_ascii_strdown`
abbrev pub strdown : Bytes → Bytes
strdown = map lower

-- `g_strstr_len(text, -1, needle) != NULL`
abbrev pub contains : Bytes → Bytes → Bool
contains [] needle = has_prefix [] needle
contains (c ∷ cs) needle = has_prefix (c ∷ cs) needle || contains cs needle

-- a byte before the first piece
abbrev pub before_first : ℕ → List Bytes → List Bytes
before_first c [] = (c ∷ []) ∷ []
before_first c (piece ∷ pieces) = (c ∷ piece) ∷ pieces

abbrev pub pieces_of : ℕ → Bytes → List Bytes
pieces_of separator [] = [] ∷ []
pieces_of separator (c ∷ cs) =
    let rest = pieces_of separator cs in if c == separator then [] ∷ rest else before_first c rest

-- `g_strsplit` at each separator: the empty text has no pieces
abbrev pub strsplit : ℕ → Bytes → List Bytes
strsplit separator [] = []
strsplit separator (c ∷ cs) = pieces_of separator (c ∷ cs)

-- `g_ascii_isdigit`, and `g_ascii_isxdigit`
abbrev pub is_digit : ℕ → Bool
is_digit c = leb b'0' c && leb c b'9'

abbrev pub is_xdigit : ℕ → Bool
is_xdigit c = is_digit c || (leb b'a' c && leb c b'f') || (leb b'A' c && leb c b'F')

-- every byte is a digit
abbrev pub only_digits : Bytes → Bool
only_digits [] = true
only_digits (c ∷ cs) = is_digit c && only_digits cs

module _ (is_space : ℕ → Bool) where
  abbrev pub strip_left : Bytes → Bytes
  strip_left [] = []
  strip_left (c ∷ cs) = let rest = strip_left cs in if is_space c then rest else c ∷ cs

  -- a byte before text that is stripped on the right
  abbrev pub before_stripped : ℕ → Bytes → Bytes
  before_stripped c [] = if is_space c then [] else c ∷ []
  before_stripped c (d ∷ ds) = c ∷ d ∷ ds

  abbrev pub strip_right : Bytes → Bytes
  strip_right [] = []
  strip_right (c ∷ cs) = before_stripped c (strip_right cs)

  -- `g_strstrip`
  abbrev pub strstrip : Bytes → Bytes
  strstrip text = strip_right (strip_left text)
