-- ===== src/Shisa/Filename.antt =====
-- The names of the files of the user database: escape_filename and unescape_filename of
-- db/fileutil.c.  A name is the list of the bytes before its NUL; `char` is signed.

pub mod Laws
use Prim.Native.Nat.{bit_or}
use shishi.Base.{
  ℕ, ◌+◌, ◌*◌, ◌/◌, ◌%◌, Bool, true, false, ◌&&◌, ◌||◌, [], ◌∷◌, ◌++◌, Bytes, leb, ltb, ◌==◌,
  if◌then◌else◌,
}

-- Letters, digits, '-' and '.'
unfoldable pub is_plain : ℕ → Bool
is_plain c =
    (leb 97 c && leb c 122)
    || (leb 65 c && leb c 90)
    || (leb 48 c && leb c 57)
    || (c == 45)
    || (c == 46)

-- `i > 10 ? 'a' + i - 10 : '0' + i`
unfoldable pub hex_digit : ℕ → ℕ
hex_digit i = if ltb 10 i then 87 + i else 48 + i

unfoldable pub escape_char : ℕ → Bytes
escape_char c = if is_plain c then c ∷ [] else 37 ∷ hex_digit (c / 16) ∷ hex_digit (c % 16) ∷ []

unfoldable pub escape_filename : Bytes → Bytes
escape_filename [] = []
escape_filename (c ∷ path) = escape_char c ++ escape_filename path

-- `c >= '0' || c <= '9' || ...` on a signed char, which every byte passes
unfoldable pub ishex : ℕ → Bool
ishex c = (leb 48 c && ltb c 128) || (leb c 57 || leb 128 c) || (leb 97 c && leb c 102)

-- The low byte of one half of tohex: a signed char above '9' counts from 'a'.
unfoldable pub hex_value : ℕ → ℕ
hex_value c = if ltb 57 c && ltb c 128 then (c + 169) % 256 else (c + 208) % 256

-- `tohex (c1, c2)` stored in a char
unfoldable pub tohex : ℕ → ℕ → ℕ
tohex c d = bit_or (hex_value c * 16 % 256) (hex_value d)

unfoldable pub unescape_filename : Bytes → Bytes
unescape_filename [] = []
unescape_filename (c ∷ []) = c ∷ []
unescape_filename (c ∷ d ∷ []) = c ∷ d ∷ []
unescape_filename (c ∷ d ∷ e ∷ path) = elim ((c == 37) && ishex d && ishex e) [
  | true ↦ tohex d e ∷ unescape_filename path
  | false ↦ c ∷ unescape_filename (d ∷ e ∷ path)
]
