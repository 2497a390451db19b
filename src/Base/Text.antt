-- ===== src/Base/Text.antt =====
-- C strings: a `char *` is NULL, or the bytes before its NUL.
use Prim.Native.Char.{code}
use Prim.Native.String.{String}
use earport_handoff.Base.{
  ℕ, ◌+◌, Bool, true, false, ◌&&◌, List, [], ◌∷◌, Option, none, some, leb, ◌==◌, if◌then◌else◌,
}

abbrev pub Bytes : Type 0
Bytes = List ℕ

abbrev pub CString : Type 0
CString = Option Bytes

-- The bytes of an ASCII literal.
abbrev pub codes : String → Bytes
codes String.[] = []
codes (String.◌∷◌ c s) = code c ∷ codes s

-- `tolower` on ASCII
abbrev pub lower : ℕ → ℕ
lower c = if leb b'A' c && leb c b'Z' then c + 32 else c

-- `strcasecmp(a, b) == 0`
abbrev pub equal_fold : Bytes → Bytes → Bool
equal_fold [] [] = true
equal_fold (x ∷ xs) (y ∷ ys) = (lower x == lower y) && equal_fold xs ys
equal_fold _ _ = false

-- `s != NULL && s[0] != '\0'`
abbrev pub is_nonempty : CString → Bool
is_nonempty none = false
is_nonempty (some []) = false
is_nonempty (some (c ∷ cs)) = true
