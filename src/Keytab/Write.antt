-- ===== src/Keytab/Write.antt =====
-- key_to_keytab_entry and shishi_keys_to_keytab_mem of lib/keytab.c, for principals of less than
-- 65536 components (`num_components` is a uint16_t).
use shishi.Base.{
  ℕ, ◌+◌, ◌-◌, ◌%◌, List, [], ◌∷◌, ◌++◌, Bytes, Bool, true, false, none, some, length, take, ltb,
  ◌||◌, ◌==◌, if◌then◌else◌,
}
use shishi.Outcome.{Outcome, ok, failed, overrun, keytab_error}
use shishi.Wire.{be16, be32}
use shishi.Key.{Key, key_length}

abbrev pub uint16_max : ℕ
uint16_max = 0xFFFF

-- SHISHI_NT_PRINCIPAL
abbrev pub nt_principal : ℕ
nt_principal = 1

-- A token in front of others, if it is not empty.
abbrev emit : Bytes → List Bytes → List Bytes
emit [] tokens = tokens
emit (c ∷ cs) tokens = (c ∷ cs) ∷ tokens

-- `strtok_r (…, "/", …)` until it returns NULL: the parts between slashes that are not empty.
unfoldable pub tokens_from : Bytes → Bytes → List Bytes
tokens_from token [] = emit token []
tokens_from token (c ∷ cs) = elim (c == b'/') [
  | true ↦ emit token (tokens_from [] cs)
  | false ↦ tokens_from (token ++ c ∷ []) cs
]

abbrev pub name_components : Bytes → List Bytes
name_components principal = tokens_from [] principal

unfoldable pub too_long : List Bytes → Bool
too_long [] = false
too_long (c ∷ cs) = ltb uint16_max (length c) || too_long cs

-- what the components add to `*len`
unfoldable pub components_length : List Bytes → ℕ
components_length [] = 0
components_length (c ∷ cs) = 2 + length c + components_length cs

abbrev pub write_components : List Bytes → Bytes → Bytes
write_components [] rest = rest
write_components (c ∷ cs) rest = be16 (length c) (c ++ write_components cs rest)

-- `*len`
abbrev pub entry_length : ℕ → List Bytes → ℕ → ℕ
entry_length realmlen components keylen =
    4 + 2 + 2 + realmlen + 4 + 4 + 1 + 2 + 2 + keylen + 4 + components_length components

-- The bytes that are stored, in front of `rest`.
abbrev pub entry_bytes : Bytes → List Bytes → Key → Bytes → Bytes
entry_bytes realm components key rest =
    be32 (entry_length (length realm) components (key_length key) - 4) (
      be16 (length components) (
        be16 (length realm) (
          realm
          ++ write_components components (
              be32 nt_principal (
                be32 key.timestamp (
                  (if ltb key.kvno 256 then key.kvno % 0x100 else 0)
                  ∷ be16 key.type (
                      be16 (key_length key)
                        (take (key_length key) key.value ++ be32 key.kvno rest))))))))

unfoldable pub to_entry : Bytes → List Bytes → Key → Outcome Bytes
to_entry realm components key =
    if ltb uint16_max (length realm) || ltb uint16_max (key_length key) || too_long components
    then failed keytab_error
    else if ltb (length key.value) (key_length key)
    then overrun
    else ok (entry_bytes realm components key [])

-- A key with no realm has its NULL dereferenced, and one with no principal behind the two tests.
unfoldable pub key_to_keytab_entry : Key → Outcome Bytes
unfolding to_entry
key_to_keytab_entry key = elim key.realm [
  | none ↦ overrun
  | some realm ↦ elim key.principal [
    | none ↦
        if ltb uint16_max (length realm) || ltb uint16_max (key_length key)
        then failed keytab_error
        else overrun
    | some principal ↦ to_entry realm (name_components principal) key
  ]
]

-- The loop over `shishi_keys_nth (keys, keyno++)`; a list holds the keys that are still to come.
unfoldable pub write_keys : List Key → Bytes → Outcome Bytes
write_keys [] out = ok out
write_keys (key ∷ keys) out = elim (key_to_keytab_entry key) [
  | ok entry ↦ write_keys keys (out ++ entry)
  | failed rc ↦ failed rc
  | overrun ↦ overrun
]

-- With no key in the set the returned `rc` was never set: `unset` stands for what it then is.
unfoldable pub keys_to_keytab_mem : Outcome Bytes → List Key → Outcome Bytes
keys_to_keytab_mem unset [] = unset
keys_to_keytab_mem unset (key ∷ keys) = write_keys (key ∷ keys) (0x05 ∷ 0x02 ∷ [])
