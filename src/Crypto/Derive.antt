-- ===== src/Crypto/Derive.antt =====
-- Key derivation: _shishi_simplified_dencrypt, shishi_dr, shishi_dk and
-- _shishi_simplified_derivekey of lib/crypto.c, with the functions that convert random data to keys
-- in lib/crypto-3des.c and lib/crypto-aes.c. The block ciphers and the MAC are parameters.
pub mod Length
use Prim.Native.Nat.{bit_and}
use shishi.Base.{
  ℕ, zero, suc, ◌+◌, ◌-◌, ◌*◌, ◌/◌, ◌%◌, Bool, true, false, [], ◌∷◌, ◌++◌, Option, none, some,
  Bytes, length, take, drop, replicate, ltb, leb, ◌==◌, ◌||◌, if◌then◌else◌,
}
use shishi.Outcome.{Outcome, ok, failed, overrun, not_ok, crypto_error, too_small_buffer}
use shishi.Outcome.Chain.{◌>>=◌}
use shishi.Wire.{be32}
use shishi.Cipher.{cipher_blocksize, cipher_supported_p}
use shishi.Cipher.Etype
use shishi.Key.{Key, new_key, key_type_set, key_length, key_value_set, key_copy}
use shishi.Crypto.NFold.{n_fold, byte_at}

-- What lib/low-crypto.c gets from the gnulib copy: shishi_des, shishi_3des and shishi_aes_cts
-- (decrypt or encrypt, key, iv and data, to the data and the next iv) and shishi_hmac_sha1. The last
-- two stand for what the table of ciphers holds for the types of lib/crypto-des.c,
-- lib/crypto-rc4.c and lib/crypto-null.c, which have their own ways to encrypt and to make keys.
pub record Primitives : Type 0 where
  pub des : Bool → Bytes → Option Bytes → Bytes → Outcome (Bytes × Bytes)
  pub des3 : Bool → Bytes → Option Bytes → Bytes → Outcome (Bytes × Bytes)
  pub aes_cts : Bool → Bytes → Option Bytes → Bytes → Outcome (Bytes × Bytes)
  pub hmac_sha1 : Bytes → Bytes → Outcome Bytes
  pub encrypt_other : Key → Bytes → Outcome Bytes
  pub random_to_key_other : Bytes → Key → Outcome Key

-- `while (((inlen + padzerolen) % 8) != 0) padzerolen++;`, at most 7 times.
unfoldable pub pad_loop : ℕ → ℕ → ℕ → ℕ
pad_loop zero inlen padzerolen = padzerolen
pad_loop (suc fuel) inlen padzerolen = elim ((inlen + padzerolen) % 8 == 0) [
  | true ↦ padzerolen
  | false ↦ pad_loop fuel inlen (suc padzerolen)
]

unfoldable pub padding : ℕ → ℕ
padding inlen = pad_loop 8 inlen 0

abbrev pub padded : Bytes → Bytes
padded input = input ++ replicate (padding (length input)) 0

unfoldable pub is_des : ℕ → Bool
is_des type =
    type == Etype.des_cbc_crc
    || (type == Etype.des_cbc_md4 || (type == Etype.des_cbc_md5 || type == Etype.des_cbc_none))

unfoldable pub is_des3 : ℕ → Bool
is_des3 type = type == Etype.des3_cbc_hmac_sha1_kd || type == Etype.des3_cbc_none

unfoldable pub is_aes : ℕ → Bool
is_aes type = type == Etype.aes128_cts_hmac_sha1_96 || type == Etype.aes256_cts_hmac_sha1_96

-- MAX_DR_PRFCONSTANT
abbrev pub max_dr_prfconstant : ℕ
max_dr_prfconstant = 1024

-- What is encrypted first: the constant, folded where it is no block.
unfoldable pub dr_constant : Bytes → ℕ → Outcome Bytes
dr_constant prfconstant blocksize =
    if length prfconstant == blocksize then ok prfconstant else n_fold prfconstant blocksize

module _ (P : Primitives) where
  -- _shishi_simplified_dencrypt: the output, and `*ivout`
  unfoldable pub simplified_dencrypt : Key → Option Bytes → Bytes → Bool → Outcome (Bytes × Bytes)
  simplified_dencrypt key iv input decryptp =
      if is_des key.type
      then P.des decryptp (take 8 key.value) iv (padded input)
      else if is_des3 key.type
      then P.des3 decryptp (take 24 key.value) iv (padded input)
      else if is_aes key.type
      then P.aes_cts decryptp (take (key_length key) key.value) iv input
      else failed crypto_error

  -- shishi_encrypt with key usage 0: the functions of lib/crypto-3des.c and lib/crypto-aes.c come
  -- to _shishi_simplified_dencrypt.
  unfoldable pub encrypt_unkeyed : Key → Bytes → Outcome Bytes
  encrypt_unkeyed key input =
      if is_des3 key.type || is_aes key.type
      then (simplified_dencrypt key none input false >>= λ r. ok (r.0))
      else P.encrypt_other key input

  -- The loop of shishi_dr over the blocks, with `totlen` and the bytes so far: it is a do-while.
  -- A turn adds a block, so more fuel than `derivedrandomlen` is never used up by blocks of one byte
  -- or more; an outcome `overrun` of the fuel's end stands for the loop of a block size 0.
  unfoldable pub dr_blocks : ℕ → Key → ℕ → ℕ → Bytes → Bytes → Outcome Bytes
  dr_blocks zero key blocksize derivedrandomlen plaintext derivedrandom = overrun
  dr_blocks (suc fuel) key blocksize derivedrandomlen plaintext derivedrandom =
      encrypt_unkeyed key plaintext >>= λ cipher.
      let rest = dr_blocks fuel key blocksize derivedrandomlen cipher (derivedrandom ++ cipher) in
      if length cipher == blocksize
      then if ltb (length (derivedrandom ++ cipher)) derivedrandomlen
        then rest
        else ok (derivedrandom ++ cipher)
      else failed crypto_error

  -- All the bytes that are stored from `derivedrandom` on.
  unfoldable pub dr : Key → Bytes → ℕ → Outcome Bytes
  dr key prfconstant derivedrandomlen =
      let blocksize = cipher_blocksize key.type in
      if ltb max_dr_prfconstant (length prfconstant)
      then failed too_small_buffer
      else dr_constant prfconstant blocksize >>= λ plaintext.
          dr_blocks (suc derivedrandomlen) key blocksize derivedrandomlen plaintext []

-- the bits of a byte but the last: `n_set_bits`
unfoldable pub n_set_bits : ℕ → ℕ
n_set_bits x =
    (x / 2) % 2
    + (x / 4) % 2
    + (x / 8) % 2
    + (x / 16) % 2
    + (x / 32) % 2
    + (x / 64) % 2
    + (x / 128) % 2

-- des_set_odd_key_parity, for one byte
unfoldable pub odd_parity : ℕ → ℕ
odd_parity x = (x / 2) * 2 + (if n_set_bits x % 2 == 0 then 1 else 0)

abbrev pub set_odd_key_parity : Bytes → Bytes
set_odd_key_parity [] = []
set_odd_key_parity (x ∷ xs) = odd_parity x ∷ set_odd_key_parity xs

-- The eighth byte of a group: the last bits of the other seven.
unfoldable pub last_bits : ℕ → Bytes → ℕ
last_bits weight [] = 0
last_bits weight (x ∷ xs) = x % 2 * weight + last_bits (2 * weight) xs

-- One turn of the loop of des3_random_to_key, on the 7 bytes of a group.
unfoldable pub expand_group : Bytes → Bytes
expand_group group = set_odd_key_parity (group ++ last_bits 2 group ∷ [])

unfoldable pub des3_random_to_key : Bytes → Key → Outcome Key
des3_random_to_key rnd outkey =
    if ltb (length rnd) 21
    then failed not_ok
    else key_value_set outkey (
        expand_group (take 7 rnd)
        ++ (expand_group (take 7 (drop 7 rnd)) ++ expand_group (take 7 (drop 14 rnd))))

-- aes128_random_to_key and aes256_random_to_key
unfoldable pub aes_random_to_key : Bytes → Key → Outcome Key
aes_random_to_key rnd outkey =
    if ltb (length rnd) (key_length outkey) then failed crypto_error else key_value_set outkey rnd

-- MAX_RANDOM_LEN
abbrev pub max_random_len : ℕ
max_random_len = 32

-- The modes of Shishi_derivekeymode, as the byte that each puts behind the key usage.
pub data DerivekeyMode : Type 0 where
  checksum privacy integrity : DerivekeyMode

abbrev pub mode_byte : DerivekeyMode → ℕ
mode_byte checksum = 0x99
mode_byte integrity = 0x55
mode_byte privacy = 0xAA

module _ (P : Primitives) where
  unfoldable pub random_to_key : ℕ → Bytes → Key → Outcome Key
  random_to_key keytype rnd outkey =
      if is_des3 keytype
      then des3_random_to_key rnd (key_type_set outkey keytype)
      else if is_aes keytype
      then aes_random_to_key rnd (key_type_set outkey keytype)
      else if cipher_supported_p keytype
      then P.random_to_key_other rnd (key_type_set outkey keytype)
      else failed crypto_error

  -- The end of shishi_dk: `rnd` has room for max_random_len bytes, and the key is made of `keylen`
  -- of them.
  unfoldable pub key_from_random : Key → ℕ → Key → Bytes → Outcome Key
  key_from_random key keylen derivedkey rnd =
      if ltb max_random_len (length rnd)
      then overrun
      else random_to_key key.type (take keylen rnd) derivedkey

  unfoldable pub dk : Key → Bytes → Key → Outcome Key
  dk key prfconstant derivedkey =
      let typed = key_type_set derivedkey key.type in
      dr P key prfconstant (key_length typed) >>= key_from_random key (key_length typed) typed

  -- `key_from_value` with no value, and then the key from the usage, or the same key for usage 0
  unfoldable pub simplified_derivekey : Key → ℕ → DerivekeyMode → Outcome Key
  simplified_derivekey key keyusage mode =
      let derivedkey = key_type_set new_key key.type in
      if keyusage == 0
      then ok (key_copy derivedkey key)
      else dk key (be32 keyusage (mode_byte mode ∷ [])) derivedkey
