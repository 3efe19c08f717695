-- ===== src/Shisa/KeyFiles.antt =====
-- The keys of a principal in files: shisa_file_keys_find, shisa_file_key_add and
-- shisa_file_key_remove of db/file.c. A function returns its return code with the state, or with
-- what it gives.
pub mod Matches
use shishi.Base.{
  ℕ, zero, suc, ◌+◌, Bool, true, false, List, [], ◌∷◌, ◌++◌, Option, none, some, Bytes, codes,
  if◌then◌else◌,
}
use shishi.Shisa.Number.{print_signed, print_unsigned}
use shishi.Shisa.Key.{ShisaKey, key_text, read_key, key_match}
use shishi.Shisa.System.{System, isdir4, isfile4, mkdir4, rm5, ls4, path4}

-- SHISA_OK and the codes that the database in files returns; -1 is the one of fileutil.c.
pub data ShisaRc : Type 0 where
  shisa_ok open_error enumerate_realm_error enumerate_principal_error enumerate_key_error : ShisaRc
  no_realm no_principal no_key : ShisaRc
  add_realm_exists add_realm_error remove_realm_nonempty remove_realm_error : ShisaRc
  add_principal_exists add_principal_error remove_principal_error : ShisaRc
  add_key_error remove_key_error multiple_key_match cfg_syntax_error minus_one : ShisaRc

-- "keys"
abbrev pub keys_name : Bytes
keys_name = codes "keys"

-- A call of fileutil.c that fails is turned into a return code.
abbrev pub or_rc : {S : Type 0} → Option S → ShisaRc → S → ShisaRc × S
or_rc none rc s = (rc, s)
or_rc (some s') rc s = (shisa_ok, s')

-- "keys/%d-%d-%zu.key"
unfoldable pub key_file : ShisaKey → ℕ → Bytes
key_file key num =
    keys_name
    ++ (b'/'
        ∷ (print_signed key.kvno
            ++ (b'-' ∷ (print_signed key.etype ++ (b'-' ∷ (print_unsigned num ++ codes ".key"))))))

-- `hint == NULL || key_match (hint, tmpkey)`
unfoldable pub hint_match : Option ShisaKey → ShisaKey → Option Bool
hint_match none key = some true
hint_match (some hint) key = key_match hint key

abbrev pub keep_if :
    Option Bool → ShisaKey → Option (ShisaRc × List ShisaKey) → Option (ShisaRc × List ShisaKey)
keep_if none key rest = none
keep_if (some true) key none = none
keep_if (some true) key (some (rc, keys)) = some (rc, key ∷ keys)
keep_if (some false) key rest = rest

-- A file whose key matches is the one that is found, or one too many.
abbrev pub found_next :
    Option Bytes
    → Bytes
    → Option Bool
    → (Option Bytes → Option (ShisaRc × Option Bytes))
    → Option (ShisaRc × Option Bytes)
found_next found file none again = none
found_next found file (some false) again = again found
found_next none file (some true) again = again (some file)
found_next (some other) file (some true) again = some (multiple_key_match, none)

module _ (x : System) (path : Bytes) where
  -- The number at which the loop over the names stops; none is that the fuel ran out.
  unfoldable pub free_number : ℕ → Bytes → Bytes → ShisaKey → ℕ → x.State → Option ℕ
  free_number zero realm principal key num s = none
  free_number (suc fuel) realm principal key num s =
      let rest = free_number fuel realm principal key (num + 1) s in
      if isfile4 x path realm principal (key_file key num) s then rest else some num

  unfoldable pub write_key :
      Bytes → Bytes → ShisaKey → x.State → Option ℕ → Option (ShisaRc × x.State)
  write_key realm principal key s none = none
  write_key realm principal key s (some num) = some (
      or_rc (x.write_file (path4 path realm principal (key_file key num)) (key_text key) s)
        add_key_error s)

  -- `!isdir4 (..., "keys") && mkdir4 (..., "keys")`
  unfoldable pub keys_dir : Bytes → Bytes → x.State → Option x.State
  keys_dir realm principal s =
      if isdir4 x path realm principal keys_name s
      then some s
      else mkdir4 x path realm principal keys_name s

  unfoldable pub key_add :
      ℕ → Bytes → Bytes → Option ShisaKey → x.State → Option (ShisaRc × x.State)
  unfolding write_key keys_dir free_number
  key_add fuel realm principal none s = some (no_key, s)
  key_add fuel realm principal (some key) s = elim (keys_dir realm principal s) [
    | none ↦ some (no_key, s)
    | some s' ↦ write_key realm principal key s' (free_number fuel realm principal key 0 s')
  ]

  -- The text of a key's file, as read_key reads it; none is SHISA_NO_KEY.
  unfoldable pub stored_key : Bytes → Bytes → Bytes → x.State → Option ShisaKey
  stored_key realm principal file s =
      elim (x.read_file (path4 path realm principal (keys_name ++ (b'/' ∷ file))) s) [
        | none ↦ none
        | some text ↦ read_key text
      ]

  -- The loop over the files: behind one that cannot be read, the others are left out. The outer
  -- none stands for the call of strcmp with a key that has no password.
  unfoldable pub find_keys :
      Bytes → Bytes → Option ShisaKey → List Bytes → x.State → Option (ShisaRc × List ShisaKey)
  unfolding stored_key hint_match
  find_keys realm principal hint [] s = some (shisa_ok, [])
  find_keys realm principal hint (file ∷ files) s =
      let rest = find_keys realm principal hint files s in
      elim (stored_key realm principal file s) [
        | none ↦ some (no_key, [])
        | some key ↦ keep_if (hint_match hint key) key rest
      ]

  unfoldable pub keys_find :
      Bytes → Bytes → Option ShisaKey → x.State → Option (ShisaRc × List ShisaKey)
  unfolding find_keys
  keys_find realm principal hint s = elim (ls4 x path realm principal keys_name s) [
    | none ↦ some (enumerate_key_error, [])
    | some files ↦ find_keys realm principal hint files s
  ]

  unfoldable pub key_update : Bytes → Bytes → ShisaKey → ShisaKey → x.State → ShisaRc × x.State
  key_update realm principal oldkey newkey s = (no_key, s)

  -- The loop of shisa_file_key_remove: `found` is the one file that matched so far.
  unfoldable pub find_file :
      Bytes
      → Bytes
      → Option ShisaKey
      → List Bytes
      → Option Bytes
      → x.State
      → Option (ShisaRc × Option Bytes)
  unfolding stored_key hint_match
  find_file realm principal hint [] found s = some (shisa_ok, found)
  find_file realm principal hint (file ∷ files) found s = elim (stored_key realm principal file s) [
    | none ↦ some (no_key, found)
    | some key ↦
        found_next found file (hint_match hint key) (λ f. find_file realm principal hint files f s)
  ]

  unfoldable pub remove_found :
      Bytes → Bytes → x.State → Option (ShisaRc × Option Bytes) → Option (ShisaRc × x.State)
  remove_found realm principal s none = none
  remove_found realm principal s (some (shisa_ok, none)) = some (no_key, s)
  remove_found realm principal s (some (shisa_ok, some file)) =
      some (or_rc (rm5 x path realm principal keys_name file s) minus_one s)
  remove_found realm principal s (some (rc, found)) = some (rc, s)

  unfoldable pub key_remove : Bytes → Bytes → Option ShisaKey → x.State → Option (ShisaRc × x.State)
  unfolding find_file remove_found
  key_remove realm principal hint s = elim (ls4 x path realm principal keys_name s) [
    | none ↦ some (minus_one, s)
    | some files ↦ remove_found realm principal s (find_file realm principal hint files none s)
  ]
