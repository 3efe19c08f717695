-- ===== src/Keytab/Read.antt =====
-- shishi_keys_add_keytab_mem and shishi_keys_from_keytab_mem of lib/keytab.c.
pub mod Scans
pub mod Hang
pub mod Names
pub mod Entry
pub mod File
pub mod Whole
use shishi.Base.{
  ℕ, zero, suc, ◌+◌, ◌-◌, ◌*◌, ◌%◌, ◌^◌, Bool, true, false, List, [], ◌∷◌, ◌++◌, Bytes, Option,
  none, some, length, take, drop, ltb, leb, ◌||◌, ◌&&◌, not, ◌==◌, if◌then◌else◌,
}
use shishi.Outcome.{Outcome, Step, ok, failed, overrun, keytab_error, pure, ◌>>=◌, ◌>>◌}
use shishi.Wire.{char16, char32}
use shishi.Key.{
  Key, new_key, key_principal_set, key_realm_set, key_type_set, key_version_set, key_timestamp_set,
  key_value_set,
}
use shishi.Keys.{keys_add}
use shishi.Keytab.{
  Cursor, Scan, skip, next, next16, next_int16, next32, next_masked32, string_at, c_string,
}

-- The cursor does not move.
abbrev pub peek : {A : Type 0} → (Bytes → Outcome A) → Scan A
peek f c = elim (f c.left) [ ok a ↦ ok (a, c) | failed rc ↦ failed rc | overrun ↦ overrun ]

string_of : ℕ → Bytes → Outcome Bytes
string_of n s = elim (string_at n [] s) [
  | ok (string, _) ↦ ok string
  | failed rc ↦ failed rc
  | overrun ↦ overrun
]

-- `memcpy (…, &data[pos], n)`
copy_of : ℕ → Bytes → Outcome Bytes
copy_of n s = if ltb (length s) n then overrun else ok (take n s)

read_realm : Key → Scan Key
read_realm key = do
  realmlen ← next16
  realm ← peek (string_of realmlen)
  skip realmlen
  pure (key_realm_set key (some realm))

-- A length with a byte from 0x80 on is a negative int, and so is past all memory as a size_t.
component_length : ℕ → ℕ → Step Cursor ℕ
component_length p0 p1 =
    if leb 0x80 p0 || leb 0x80 p1 then (λ c. overrun) else pure (p0 * 0x100 + p1)

-- Each component is stored with a '/' behind it.
pub read_components : ℕ → Bytes → Scan Bytes
read_components zero name = pure name
read_components (suc n) name = do
  p0 ← next
  p1 ← next
  l ← component_length p0 p1
  component ← peek (copy_of l)
  skip l
  read_components n (name ++ (component ++ b'/' ∷ []))

-- `name[namelen - 1] = '\0'`; with no component that is outside of any memory.
pub principal_of : Bytes → Outcome Bytes
principal_of [] = overrun
principal_of (b ∷ name) = ok (c_string (take (length name) (b ∷ name)))

read_principal : ℕ → Key → Scan Key
read_principal num_components key = do
  name ← read_components num_components []
  principal ← peek (λ _. principal_of name)
  pure (key_principal_set key (some principal))

-- The name type is read in either version, and not used.
read_times : Key → Scan Key
read_times key = do
  name_type ← next32
  timestamp ← next_masked32
  vno8 ← next
  pure (key_version_set (key_timestamp_set key timestamp) vno8)

-- The value is copied at the length of the key type; the cursor goes on by `keylen`.
read_value : Key → Scan Key
read_value key = do
  keytype ← next_int16
  keylen ← next16
  valued ← peek (key_value_set (key_type_set key keytype))
  skip keylen
  pure valued

-- A version of 32 bits, where the entry has more bytes.
read_version : ℕ → Key → Scan Key
read_version size key c =
    if ltb c.pos (size + 4)
    then (do vno ← next32; pure (key_version_set key vno)) c
    else ok (key, c)

-- num_components, one less in version 0x0501
abbrev component_count : ℕ → ℕ → ℕ
component_count version n = if version == 0x0501 then (n + 0xFFFF) % 0x10000 else n

-- One entry; the key is the one that the entry before it has filled. `size` is a uint16_t.
pub read_entry : ℕ → Key → Scan (ℕ × Key)
unfolding read_realm read_principal read_times read_value read_version
read_entry version key = do
  size32 ← next32
  num_components ← next16
  with_realm ← read_realm key
  with_principal ← read_principal (component_count version num_components) with_realm
  with_times ← read_times with_principal
  with_value ← read_value with_times
  entry ← read_version (size32 % 0x10000) with_value
  pure (size32 % 0x10000, entry)

-- The loop over the entries, on fuel; `entrystartpos` is `start`.
pub read_entries : ℕ → ℕ → Bytes → ℕ → Key → List Key → Option (Outcome (List Key))
read_entries zero version data_bytes start key keys = none
read_entries (suc fuel) version data_bytes start key keys = elim (ltb start (length data_bytes)) [
  | false ↦ some (ok keys)
  | true ↦ elim (read_entry version key (record { pos = 0; left = drop start data_bytes })) [
    | failed rc ↦ some (failed rc)
    | overrun ↦ some overrun
    | ok ((size, entry), _) ↦ elim (keys_add keys (some entry)) [
      | ok keys' ↦ read_entries fuel version data_bytes (start + (size + 4)) entry keys'
      | failed rc ↦ some (failed rc)
      | overrun ↦ some overrun
    ]
  ]
]

-- The int32_t size of an entry, added to a size_t: a negative one is extended by ones.
abbrev pub add_size : ℕ → ℕ → ℕ
add_size pos size = (pos + (if ltb size (2 ^ 31) then size else 2 ^ 64 - 2 ^ 32 + size)) % 2 ^ 64

-- The loop that checks the file's integrity before anything is read, on fuel.
pub check_entries : ℕ → Bytes → ℕ → Option (Outcome (Unit {0}))
check_entries zero data_bytes pos = none
check_entries (suc fuel) data_bytes pos = elim (ltb pos (length data_bytes)) [
  | false ↦ some (if pos == length data_bytes then ok tt else failed keytab_error)
  | true ↦ elim (next32 (record { pos = pos; left = drop pos data_bytes })) [
    | failed rc ↦ some (failed rc)
    | overrun ↦ some overrun
    | ok (size, _) ↦ elim (ltb (length data_bytes) (add_size (pos + 4) size)) [
      | true ↦ some (failed keytab_error)
      | false ↦ check_entries fuel data_bytes (add_size (pos + 4) size)
    ]
  ]
]

-- The body of shishi_keys_add_keytab_mem from the format version on; `none`: the fuel ran out.
add_checked : ℕ → ℕ → Bytes → List Key → Option (Outcome (Unit {0})) → Option (Outcome (List Key))
add_checked fuel version data_bytes keys none = none
add_checked fuel version data_bytes keys (some (ok _)) =
    read_entries fuel version data_bytes 2 new_key keys
add_checked fuel version data_bytes keys (some (failed rc)) = some (failed rc)
add_checked fuel version data_bytes keys (some overrun) = some overrun

add_version : ℕ → Bytes → List Key → ℕ → Option (Outcome (List Key))
unfolding add_checked
add_version fuel data_bytes keys version =
    if not (version == 0x0501) && not (version == 0x0502)
    then some (failed keytab_error)
    else add_checked fuel version data_bytes keys (check_entries fuel data_bytes 2)

pub keys_add_keytab_mem : ℕ → Bytes → List Key → Option (Outcome (List Key))
unfolding add_version
keys_add_keytab_mem fuel (b0 ∷ b1 ∷ rest) keys =
    add_version fuel (b0 ∷ b1 ∷ rest) keys (char16 b0 b1)
keys_add_keytab_mem fuel _ keys = some overrun

-- A new set; on an error it is freed.
pub keys_from_keytab_mem : ℕ → Bytes → Option (Outcome (List Key))
keys_from_keytab_mem fuel data_bytes = keys_add_keytab_mem fuel data_bytes []
