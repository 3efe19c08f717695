-- ===== src/Cipher.antt =====
-- The table of encryption types: `ciphers` of lib/crypto.c and the `cipherinfo` values of
-- lib/crypto-null.c, lib/crypto-des.c, lib/crypto-3des.c, lib/crypto-aes.c and lib/crypto-rc4.c,
-- with all of them compiled in. An int32_t type is its 32-bit pattern.
pub mod Etype
pub mod Cksumtype
use shishi.Base.{ℕ, ◌-◌, ◌^◌, List, [], ◌∷◌, Bool, true, false, ◌==◌, if◌then◌else◌}

pub record CipherInfo : Type 0 where
  pub etype : ℕ
  pub blocksize : ℕ
  pub confoundersize : ℕ
  pub keylen : ℕ
  pub randomlen : ℕ
  pub defaultcksumtype : ℕ

abbrev info : ℕ → ℕ → ℕ → ℕ → ℕ → ℕ → CipherInfo
info etype blocksize confoundersize keylen randomlen defaultcksumtype = record {
  etype = etype;
  blocksize = blocksize;
  confoundersize = confoundersize;
  keylen = keylen;
  randomlen = randomlen;
  defaultcksumtype = defaultcksumtype;
}

unfoldable pub ciphers : List CipherInfo
ciphers =
    info Etype.null 1 0 0 0 Cksumtype.rsa_md5
    ∷ info Etype.des_cbc_crc 8 8 8 8 Cksumtype.crc32
    ∷ info Etype.des_cbc_md4 8 8 8 8 Cksumtype.rsa_md4_des
    ∷ info Etype.des_cbc_md5 8 8 8 8 Cksumtype.rsa_md5_des
    ∷ info Etype.des_cbc_none 8 8 8 8 Cksumtype.rsa_md5_des
    ∷ info Etype.des3_cbc_none 8 8 24 24 Cksumtype.hmac_sha1_des3_kd
    ∷ info Etype.des3_cbc_hmac_sha1_kd 8 8 24 24 Cksumtype.hmac_sha1_des3_kd
    ∷ info Etype.aes128_cts_hmac_sha1_96 16 16 16 16 Cksumtype.hmac_sha1_96_aes128
    ∷ info Etype.aes256_cts_hmac_sha1_96 16 16 32 32 Cksumtype.hmac_sha1_96_aes256
    ∷ info Etype.arcfour_hmac 1 16 16 16 Cksumtype.arcfour_hmac_md5
    ∷ info Etype.arcfour_hmac_exp 1 16 16 16 Cksumtype.arcfour_hmac_md5
    ∷ []

-- `(size_t) -1`
abbrev pub size_max : ℕ
size_max = 2 ^ 64 - 1

-- the loop of the table's look-ups: the first entry of the type
unfoldable pub find_cipher {ℓ} : {A : Type ℓ} → List CipherInfo → ℕ → (CipherInfo → A) → A → A
find_cipher [] type field missing = missing
find_cipher (c ∷ cs) type field missing =
    if type == c.etype then field c else find_cipher cs type field missing

unfoldable pub cipher_supported_p : ℕ → Bool
unfolding find_cipher ciphers
cipher_supported_p type = find_cipher ciphers type (λ c. true) false

-- `int`: -1 is the pattern 2 ^ 32 - 1
unfoldable pub cipher_blocksize : ℕ → ℕ
unfolding find_cipher ciphers
cipher_blocksize type = find_cipher ciphers type (λ c. c.blocksize) (2 ^ 32 - 1)

unfoldable pub cipher_confoundersize : ℕ → ℕ
unfolding find_cipher ciphers
cipher_confoundersize type = find_cipher ciphers type (λ c. c.confoundersize) (2 ^ 32 - 1)

unfoldable pub cipher_keylen : ℕ → ℕ
unfolding find_cipher ciphers
cipher_keylen type = find_cipher ciphers type (λ c. c.keylen) size_max

unfoldable pub cipher_randomlen : ℕ → ℕ
unfolding find_cipher ciphers
cipher_randomlen type = find_cipher ciphers type (λ c. c.randomlen) size_max

-- -1 is the pattern 2 ^ 32 - 1
unfoldable pub cipher_defaultcksumtype : ℕ → ℕ
unfolding find_cipher ciphers
cipher_defaultcksumtype type = find_cipher ciphers type (λ c. c.defaultcksumtype) (2 ^ 32 - 1)
