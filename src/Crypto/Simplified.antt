-- ===== src/Crypto/Simplified.antt =====
-- The simplified profile: simplified_hmac, simplified_hmac_verify, _shishi_simplified_encrypt,
-- _shishi_simplified_decrypt and _shishi_simplified_checksum of lib/crypto.c.
pub mod Profile
pub mod RoundTrip
pub mod Authentic
use shishi.Base.{
  ℕ, ◌+◌, ◌-◌, ◌%◌, Bool, true, false, [], ◌∷◌, ◌++◌, Option, none, some, Bytes, length, take, drop,
  str_equal, replicate, ltb, leb, ◌==◌, ◌||◌, ◌&&◌, if◌then◌else◌,
}
use shishi.Outcome.{Outcome, ok, failed, overrun, crypto_error}
use shishi.Outcome.Chain.{◌>>=◌}
use shishi.Cipher.{cipher_blocksize, cipher_defaultcksumtype}
use shishi.Cipher.Etype
use shishi.Checksum.{checksum_cksumlen}
use shishi.Key.{Key, key_length}
use shishi.Crypto.Derive.{
  Primitives, padding, simplified_dencrypt, simplified_derivekey, DerivekeyMode, checksum, privacy,
  integrity,
}

-- `hlen`: the MAC is cut to it
unfoldable pub mac_length : Key → ℕ
mac_length key = checksum_cksumlen (cipher_defaultcksumtype key.type)

-- the padding that _shishi_simplified_encrypt adds
unfoldable pub encrypt_padding : ℕ → ℕ → ℕ
encrypt_padding type inlen =
    if type == Etype.des3_cbc_hmac_sha1_kd
      || (type == Etype.des_cbc_crc || (type == Etype.des_cbc_md4 || type == Etype.des_cbc_md5))
    then padding inlen
    else 0

-- What is encrypted: the random block, the data and the padding.
abbrev pub confounded : Key → Bytes → Bytes → Bytes
confounded key confounder input =
    confounder ++ (input ++ replicate (encrypt_padding key.type (length input)) 0)

-- `memmove` from `*out + blen` on: `*outlen - blen` wraps for a shorter text.
unfoldable pub without_confounder : ℕ → Bytes → Outcome Bytes
without_confounder blen out = if ltb (length out) blen then overrun else ok (drop blen out)

module _ (P : Primitives) where
  -- The hash, of which the caller uses `*outhashlen` bytes.
  unfoldable pub simplified_hmac : Key → Bytes → Outcome Bytes
  simplified_hmac key input = P.hmac_sha1 (take (key_length key) key.value) input

  -- `memcmp` of the first bytes of the hash and the MAC
  unfoldable pub simplified_hmac_verify : Key → Bytes → Bytes → Outcome (Unit {0})
  simplified_hmac_verify key input hmac = simplified_hmac key input >>= λ hash.
      if mac_length key == length hmac && str_equal (take (length hmac) hash) hmac
      then ok tt
      else failed crypto_error

  -- With `keyusage` not 0. `confounder` is what shishi_randomize comes to, of the block size.
  unfoldable pub encrypt_keyed :
      Outcome Bytes → Key → ℕ → Option Bytes → Bytes → Outcome (Bytes × Bytes)
  encrypt_keyed randomize key keyusage iv input = randomize >>= λ confounder.
      simplified_derivekey P key keyusage privacy >>= λ privacykey.
      simplified_dencrypt P privacykey iv (confounded key confounder input) false >>= λ ct.
      simplified_derivekey P key keyusage integrity >>= λ integritykey.
      simplified_hmac integritykey (confounded key confounder input) >>= λ hmac.
      ok (ct.0 ++ take (mac_length integritykey) hmac, ct.1)

  unfoldable pub simplified_encrypt :
      Outcome Bytes → Key → ℕ → Option Bytes → Bytes → Outcome (Bytes × Bytes)
  simplified_encrypt randomize key keyusage iv input =
      if keyusage == 0
      then simplified_dencrypt P key iv input false
      else encrypt_keyed randomize key keyusage iv input

  -- With `keyusage` not 0. `inlen - hlen` wraps for an input shorter than the MAC: the decryption
  -- then reads far beyond it.
  unfoldable pub decrypt_keyed : Key → ℕ → Option Bytes → Bytes → Outcome (Bytes × Bytes)
  decrypt_keyed key keyusage iv input =
      let hlen = mac_length key in
      let ctlen = length input - hlen in
      simplified_derivekey P key keyusage privacy >>= λ privacykey.
      if ltb (length input) hlen
      then overrun
      else (simplified_dencrypt P privacykey iv (take ctlen input) true >>= λ out.
          simplified_derivekey P key keyusage integrity >>= λ integritykey.
          simplified_hmac_verify integritykey (out.0) (drop ctlen input) >>= λ _.
          without_confounder (cipher_blocksize key.type) (out.0) >>= λ text. ok (text, out.1))

  unfoldable pub simplified_decrypt : Key → ℕ → Option Bytes → Bytes → Outcome (Bytes × Bytes)
  simplified_decrypt key keyusage iv input =
      if keyusage == 0
      then simplified_dencrypt P key iv input true
      else decrypt_keyed key keyusage iv input

  -- `cksumlen` bytes of the hash
  unfoldable pub simplified_checksum : Key → ℕ → ℕ → Bytes → Outcome Bytes
  simplified_checksum key keyusage cksumtype input =
      simplified_derivekey P key keyusage checksum >>= λ checksumkey.
      simplified_hmac checksumkey input >>= λ out. ok (take (checksum_cksumlen cksumtype) out)
