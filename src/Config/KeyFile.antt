-- ===== src/Config/KeyFile.antt =====
-- What config.c uses of GLib: key files with groups of keys and values, and the tests of UTF-8; with
-- what the documentation says of them. None of it is code of the daemon: these are parameters.
use earport_handoff.Base.{
  ℕ, ◌^◌, ◌<◌, ◌≤◌, ◌≡◌, Bool, false, ◌&&◌, ◌||◌, Option, some, length, take, bytes_equal,
  if◌then◌else◌,
}
use earport_handoff.Base.Int.{ℤ, pos}
use earport_handoff.Base.Text.{Bytes, CString}

-- `g_key_file_new`, `g_key_file_has_group`, `g_key_file_get_value` (none where `g_key_file_has_key`
-- is false), `g_key_file_set_value` and `g_key_file_set_comment` on a group; and how integers,
-- booleans and strings are written as values and read again, 0, FALSE and NULL for a value that
-- cannot be read.
pub record KeyFiles : Type 1 where
  pub File : Type 0
  pub new : File
  pub has_group : File → Bytes → Bool
  pub lookup : File → (group key : Bytes) → Option Bytes
  pub set_value : File → (group key value : Bytes) → File
  pub set_comment : File → (group : Bytes) → File
  pub integer_value : ℤ → Bytes
  pub read_integer : Bytes → ℤ
  pub boolean_value : Bool → Bytes
  pub read_boolean : Bytes → Bool
  pub string_value : Bytes → Bytes
  pub read_string : Bytes → CString

-- `g_utf8_make_valid`, and the length of the longest valid start, where `g_utf8_validate` ends
pub record Utf8 : Type 0 where
  pub make_valid : Bytes → Bytes
  pub valid_length : Bytes → ℕ

-- `g_utf8_validate`
abbrev pub IsUtf8 : Utf8 → Bytes → Type 0
IsUtf8 U s = U.valid_length s ≡ length s

pub record Utf8Laws (U : Utf8) : Type 0 where
  pub valid_length-le : (s : Bytes) → U.valid_length s ≤ length s
  pub take-IsUtf8 : (s : Bytes) → IsUtf8 U (take (U.valid_length s) s)
  pub make_valid-IsUtf8 : (s : Bytes) → IsUtf8 U (U.make_valid s)
  pub make_valid-id : (s : Bytes) → IsUtf8 U s → U.make_valid s ≡ s

-- A set value is read where it was set, and every other key of every group keeps its value. A comment
-- changes no value.
pub record KeyFileLaws (K : KeyFiles) (U : Utf8) : Type 0 where
  pub has_group-new : (g : Bytes) → K.has_group K.new g ≡ false
  pub has_group-set_value :
      (f : K.File) (g k v g' : Bytes)
      → K.has_group (K.set_value f g k v) g' ≡ (bytes_equal g g' || K.has_group f g')
  pub lookup-set_value :
      (f : K.File) (g k v g' k' : Bytes)
      → K.lookup (K.set_value f g k v) g' k'
        ≡ (if bytes_equal g g' && bytes_equal k k' then some v else K.lookup f g' k')
  pub lookup-set_comment :
      (f : K.File) (g g' k' : Bytes) → K.lookup (K.set_comment f g) g' k' ≡ K.lookup f g' k'
  pub read-integer : (n : ℕ) → n < 2 ^ 31 → K.read_integer (K.integer_value (pos n)) ≡ pos n
  pub read-boolean : (b : Bool) → K.read_boolean (K.boolean_value b) ≡ b
  pub read-string : (s : Bytes) → IsUtf8 U s → K.read_string (K.string_value s) ≡ some s
