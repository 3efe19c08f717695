-- ===== src/Tests/Userdb.antt =====
-- Names of files in the user database: runs and instances.
use shishi.Base.{◌≡◌, refl, [], ◌∷◌, Bytes, arith}
use shishi.Shisa.Filename.{
  is_plain, hex_digit, escape_char, escape_filename, ishex, hex_value, tohex, unescape_filename,
}
use shishi.Shisa.Filename.Laws.{escape_filename_injective}

-- "a/b"
abbrev slashed : Bytes
slashed = 97 ∷ 47 ∷ 98 ∷ []

escape-slashed : escape_filename slashed ≡ 97 ∷ 37 ∷ 50 ∷ 102 ∷ 98 ∷ []
unfolding escape_filename escape_char is_plain hex_digit
escape-slashed = refl

-- A colon is written "%3:", which is read as another byte.
escape-colon : escape_filename (58 ∷ []) ≡ 37 ∷ 51 ∷ 58 ∷ []
unfolding escape_filename escape_char is_plain hex_digit
escape-colon = refl

unescape-colon : unescape_filename (37 ∷ 51 ∷ 58 ∷ []) ≡ 243 ∷ []
unfolding unescape_filename ishex tohex hex_value
unescape-colon = refl

-- The parent directory's name is kept.
escape-parent : escape_filename (46 ∷ 46 ∷ []) ≡ 46 ∷ 46 ∷ []
unfolding escape_filename escape_char is_plain
escape-parent = refl

escape_filename_injective_example : slashed ≡ slashed
escape_filename_injective_example =
    escape_filename_injective slashed slashed (omega arith, (omega arith, (omega arith, tt)))
      (omega arith, (omega arith, (omega arith, tt))) refl
