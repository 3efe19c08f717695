-- ===== src/Ccache.antt =====
-- MIT credential cache files: lib/ccache.h and lib/ccache.c.
-- A pointer and the length behind it (`*data`, `*len`) are the list of the bytes left to read; a
-- pointer into the output and the room behind it are a `Buffer`. The struct's array of components
-- and `num_components` are one list, and a `ccache_buffer` is the list of its bytes.
pub mod Parse
pub mod Pack
use shishi.Base.{
  ℕ, ◌-◌, ◌%◌, [], ◌∷◌, ◌++◌, List, Bytes, length, take, drop, ltb, ◌==◌, if◌then◌else◌,
}
use shishi.Outcome.{Step, ok, failed, overrun, minus_one}
use shishi.Wire.{char16, masked32, be16, be32, le32}

pub record Principal : Type 0 where
  pub name_type : ℕ
  pub realm : Bytes
  pub components : List Bytes

pub record Keyblock : Type 0 where
  pub keytype : ℕ
  pub etype : ℕ
  pub keyvalue : Bytes

pub record Credential : Type 0 where
  pub client : Principal
  pub server : Principal
  pub key : Keyblock
  pub authtime : ℕ
  pub starttime : ℕ
  pub endtime : ℕ
  pub renew_till : ℕ
  pub is_skey : ℕ
  pub tktflags : ℕ
  pub ticket : Bytes
  pub second_ticket : Bytes

pub record Cache : Type 0 where
  pub file_format_version : ℕ
  pub header : Bytes
  pub default_principal : Principal
  pub credentials : Bytes

abbrev pub max_components : ℕ
max_components = 5

abbrev pub Reader : Type 0 → Type 0
Reader = Step Bytes

pub get_uint8 : Reader ℕ
get_uint8 (p0 ∷ rest) = ok (p0, rest)
get_uint8 _ = failed minus_one

pub get_uint16 : Reader ℕ
get_uint16 (p0 ∷ p1 ∷ rest) = ok (char16 p0 p1, rest)
get_uint16 _ = failed minus_one

pub get_uint32 : Reader ℕ
get_uint32 (p0 ∷ p1 ∷ p2 ∷ p3 ∷ rest) = ok (masked32 p0 p1 p2 p3, rest)
get_uint32 _ = failed minus_one

pub get_uint32_swapped : Reader ℕ
get_uint32_swapped (p0 ∷ p1 ∷ p2 ∷ p3 ∷ rest) = ok (masked32 p3 p2 p1 p0, rest)
get_uint32_swapped _ = failed minus_one

-- `if (*len < n) return -1; … = *data; *data += n; *len -= n;`
pub get_data : ℕ → Reader Bytes
get_data n s = if ltb (length s) n then failed minus_one else ok (take n s, drop n s)

-- `if (**data != '\0') return -1;`, which reads a byte also where none is left
pub check_zero : Reader (Unit {0})
check_zero [] = overrun
check_zero (b ∷ rest) = if b == 0 then ok (tt, b ∷ rest) else failed minus_one

-- `if (*len > 0 && **data != '\0') return -1;`
pub check_zero_if_any : Reader (Unit {0})
check_zero_if_any [] = ok (tt, [])
check_zero_if_any (b ∷ rest) = if b == 0 then ok (tt, b ∷ rest) else failed minus_one

pub record Buffer : Type 0 where
  pub out : Bytes
  pub room : ℕ

abbrev pub Writer : Type 0
Writer = Step Buffer (Unit {0})

-- `if (*len < n) return -1;`, then the bytes are stored and both pointers moved
unfoldable pub put : Bytes → Writer
put bs w =
    if ltb w.room (length bs)
    then failed minus_one
    else ok (tt, record w { out = w.out ++ bs; room = w.room - length bs })

pub put_uint8 : ℕ → Writer
put_uint8 i = put ((i % 0x100) ∷ [])

pub put_uint16 : ℕ → Writer
put_uint16 i = put (be16 i [])

pub put_uint32 : ℕ → Writer
put_uint32 i = put (be32 i [])

pub put_uint32_swapped : ℕ → Writer
put_uint32_swapped i = put (le32 i [])

-- `if (*len < n) return -1; memcpy (*out, data, n); *out += n; *len -= n;`
pub put_data : Bytes → Writer
put_data = put
