-- ===== src/Key.antt =====
-- Keys: struct Shishi_key and its operations, lib/key.c. A string is the list of its bytes without
-- the terminating zero; `none` is NULL.
use shishi.Base.{
  ℕ, ◌-◌, ◌^◌, Bool, Option, none, some, Bytes, length, take, drop, replicate, ◌++◌, ltb, leb, ◌&&◌,
  if◌then◌else◌,
}
use shishi.Cipher.{cipher_keylen}
use shishi.Outcome.{Outcome, ok, overrun}

abbrev pub max_key_len : ℕ
max_key_len = 32

pub record Key : Type 0 where
  pub principal : Option Bytes
  pub realm : Option Bytes
  pub type : ℕ
  pub value : Bytes
  pub kvno : ℕ
  pub timestamp : ℕ

-- shishi_key: the memory is zeroed, the version undefined
abbrev pub new_key : Key
new_key = record {
  principal = none;
  realm = none;
  type = 0;
  value = replicate max_key_len 0;
  kvno = 2 ^ 32 - 1;
  timestamp = 0;
}

abbrev pub key_principal_set : Key → Option Bytes → Key
key_principal_set key principal = record key { principal = principal }

abbrev pub key_realm_set : Key → Option Bytes → Key
key_realm_set key realm = record key { realm = realm }

abbrev pub key_type_set : Key → ℕ → Key
key_type_set key type = record key { type = type }

abbrev pub key_version_set : Key → ℕ → Key
key_version_set key kvno = record key { kvno = kvno }

abbrev pub key_timestamp_set : Key → ℕ → Key
key_timestamp_set key timestamp = record key { timestamp = timestamp }

-- shishi_key_length
abbrev pub key_length : Key → ℕ
key_length key = cipher_keylen key.type

-- The test of shishi_key_value_set: it copies nothing for other lengths.
abbrev pub holds_value : ℕ → Bool
holds_value n = ltb 0 n && leb n max_key_len

-- `memcpy (key->value, value, n)`
abbrev pub copy_value : ℕ → Bytes → Bytes → Bytes
copy_value n value old = take n value ++ drop n old

-- The value is the memory from `value` on: the copy overruns where less than the length is left.
unfoldable pub key_value_set : Key → Bytes → Outcome Key
key_value_set key value =
    if holds_value (key_length key)
    then if ltb (length value) (key_length key)
      then overrun
      else ok (record key { value = copy_value (key_length key) value key.value })
    else ok key

-- shishi_key_copy: the destination keeps its bytes behind the key's length. A key's own value has
-- max_key_len bytes, so that copy stays inside.
unfoldable pub key_copy : Key → Key → Key
key_copy dst src = record {
  principal = src.principal;
  realm = src.realm;
  type = src.type;
  value =
      if holds_value (key_length src)
      then copy_value (key_length src) src.value dst.value
      else dst.value;
  kvno = src.kvno;
  timestamp = src.timestamp;
}

-- shishi_key_from_value: no value is NULL.
unfoldable pub key_from_value : ℕ → Option Bytes → Outcome Key
unfolding key_value_set
key_from_value type none = ok (key_type_set new_key type)
key_from_value type (some value) = key_value_set (key_type_set new_key type) value
