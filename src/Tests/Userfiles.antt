-- ===== src/Tests/Userfiles.antt =====
-- A small user database in files: runs and instances for the keys, the principals and the configuration.
use shishi.Base.{
  ◌≡◌, refl, true, if◌then◌else◌, [], ◌∷◌, List, Option, none, some, Bytes, codes, arith, str_equal,
}
use shishi.Shisa.Key.{ShisaKey, key_text, read_key}
use shishi.Shisa.Key.RoundTrip.{read_key-key_text}
use shishi.Shisa.System.{System, join}
use shishi.Shisa.KeyFiles.{ShisaRc, shisa_ok, keys_find, key_remove}
use shishi.Shisa.KeyFiles.Matches.{key_remove_unique, keys_find_versioned}
use shishi.Shisa.Config.{cfg_lines}
use shishi.Shisa.Config.Slots.{file_lines, cfg_lines_last}

abbrev stored_des : ShisaKey
stored_des = record {
  kvno = 0;
  etype = 3;
  priority = 1;
  key = b'x' ∷ b'y' ∷ [];
  salt = b'A' ∷ [];
  str2keyparam = [];
  password = some (b'p' ∷ []);
}

abbrev stored_aes : ShisaKey
stored_aes = record stored_des { etype = 18; password = none }

read_key-key_text_example : read_key (key_text stored_des) ≡ some stored_des
read_key-key_text_example = read_key-key_text stored_des (
  omega arith,
  omega arith,
  omega arith,
  omega arith,
  omega arith,
  omega arith,
  (omega arith, tt),
)

-- Two texts of keys, as they stand in the files
des_text : read_key (codes "3 2 1 0 1 1\nxyAp") ≡ some stored_des
unfolding read_key shishi.Shisa.Number.scan_unsigned shishi.Shisa.Number.scan_signed
    shishi.Shisa.Number.skip_space shishi.Shisa.Number.narrow shishi.Shisa.Number.scan_magnitude
    shishi.Shisa.Number.scan_digits shishi.Shisa.Key.read_priority shishi.Shisa.Key.read_fields
des_text = refl

-- The directory of the keys of one principal: its files by their names
abbrev Files : Type 0
Files = List (Bytes × Bytes)

abbrev dir : Bytes
dir = codes "d/A/u/keys"

abbrev names : Files → List Bytes
names [] = []
names ((name, text) ∷ files) = name ∷ names files

abbrev lookup : Bytes → Files → Option Bytes
lookup path [] = none
lookup path ((name, text) ∷ files) =
    let rest = lookup path files in if str_equal path (join dir name) then some text else rest

abbrev without : Bytes → Files → Files
without path [] = []
without path ((name, text) ∷ files) =
    let rest = without path files in
    if str_equal path (join dir name) then files else (name, text) ∷ rest

abbrev disk : System
disk = record {
  State = Files;
  is_dir = λ path s. str_equal path dir;
  is_reg = λ path s. true;
  st_atime = λ path s. 0;
  mkdir = λ path s. none;
  rmdir = λ path s. none;
  unlink = λ path s. some (without path s);
  readdir = λ path s. some (names s);
  areadlink = λ path s. none;
  atol = λ text. 0;
  read_file = lookup;
  write_file = λ path text s. none;
}

abbrev files : Files
files = (codes "a", codes "3 2 1 0 1 1\nxyAp") ∷ (codes "b", codes "18 2 1 0 0 1\nxyA") ∷ []

abbrev aes_hint : ShisaKey
aes_hint = record {
  kvno = 0;
  etype = 18;
  priority = 0;
  key = [];
  salt = [];
  str2keyparam = [];
  password = none;
}

both_found :
    keys_find disk (codes "d") (codes "A") (codes "u") none files
    ≡ some (shisa_ok, stored_des ∷ stored_aes ∷ [])
unfolding keys_find shishi.Shisa.System.ls shishi.Shisa.System.path4
    shishi.Shisa.Filename.escape_filename shishi.Shisa.Filename.escape_char
    shishi.Shisa.Filename.is_plain shishi.Shisa.Filename.unescape_filename read_key
    shishi.Shisa.Number.scan_unsigned shishi.Shisa.Number.scan_signed shishi.Shisa.Number.skip_space
    shishi.Shisa.Number.narrow shishi.Shisa.Number.scan_magnitude shishi.Shisa.Number.scan_digits
    shishi.Shisa.Key.read_priority shishi.Shisa.Key.read_fields
both_found = refl

key_removed :
    key_remove disk (codes "d") (codes "A") (codes "u") (some aes_hint) files
    ≡ some (shisa_ok, (codes "a", codes "3 2 1 0 1 1\nxyAp") ∷ [])
unfolding key_remove shishi.Shisa.System.path5 shishi.Shisa.Key.key_match
    shishi.Shisa.Key.password_match shishi.Shisa.System.ls shishi.Shisa.System.path4
    shishi.Shisa.Filename.escape_filename shishi.Shisa.Filename.escape_char
    shishi.Shisa.Filename.is_plain shishi.Shisa.Filename.unescape_filename read_key
    shishi.Shisa.Number.scan_unsigned shishi.Shisa.Number.scan_signed shishi.Shisa.Number.skip_space
    shishi.Shisa.Number.narrow shishi.Shisa.Number.scan_magnitude shishi.Shisa.Number.scan_digits
    shishi.Shisa.Key.read_priority shishi.Shisa.Key.read_fields
key_removed = refl

key_remove_unique_example :
    (key : ShisaKey) × (keys_find disk (codes "d") (codes "A") (codes "u") (some aes_hint) files
      ≡ some (shisa_ok, key ∷ []))
key_remove_unique_example =
    key_remove_unique disk (codes "d") (codes "A") (codes "u") (some aes_hint) files _ key_removed

keys_find_versioned_example :
    (rc : ShisaRc) × (keys_find disk
        (codes "d")
        (codes "A")
        (codes "u")
        (some (record aes_hint { kvno = 1 }))
        files
      ≡ some (rc, []))
keys_find_versioned_example =
    keys_find_versioned disk (codes "d") (codes "A") (codes "u") (record aes_hint { kvno = 1 })
      files (cc) refl

cfg_lines_last_example :
    cfg_lines
      (λ path. true)
      (λ options. [])
      (file_lines (codes "/a" ∷ codes "/b" ∷ codes "/c" ∷ []))
      []
    ≡ (shisa_ok, some (codes "/c") ∷ none ∷ none ∷ [])
cfg_lines_last_example =
    cfg_lines_last (λ path. true) (λ options. []) (codes "/a") (codes "/b" ∷ codes "/c" ∷ [])
      (refl, (refl, (refl, tt)), λ e. cc)
      ((refl, (refl, (refl, tt)), λ e. cc), ((refl, (refl, (refl, tt)), λ e. cc), tt))
