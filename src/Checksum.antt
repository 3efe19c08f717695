-- ===== src/Checksum.antt =====
-- The table of checksum types: `checksums` of lib/crypto.c and the `checksuminfo` values of
-- lib/crypto-des.c, lib/crypto-md.c, lib/crypto-3des.c, lib/crypto-aes.c and lib/crypto-rc4.c, with
-- all of them compiled in. An int32_t type is its 32-bit pattern.
use shishi.Base.{ℕ, List, [], ◌∷◌, Bool, true, false, ◌==◌, if◌then◌else◌}
use shishi.Cipher.{size_max}
use shishi.Cipher.Cksumtype

pub record ChecksumInfo : Type 0 where
  pub cksumtype : ℕ
  pub cksumlen : ℕ
  -- whether the function that verifies is not NULL
  pub can_verify : Bool

abbrev info : ℕ → ℕ → Bool → ChecksumInfo
info cksumtype cksumlen can_verify = record {
  cksumtype = cksumtype;
  cksumlen = cksumlen;
  can_verify = can_verify;
}

unfoldable pub checksums : List ChecksumInfo
checksums =
    info Cksumtype.crc32 4 false
    ∷ info Cksumtype.rsa_md4 16 false
    ∷ info Cksumtype.rsa_md4_des 24 true
    ∷ info Cksumtype.rsa_md5 16 false
    ∷ info Cksumtype.rsa_md5_des 24 true
    ∷ info Cksumtype.rsa_md5_des_gss 8 false
    ∷ info Cksumtype.hmac_sha1_des3_kd 20 false
    ∷ info Cksumtype.hmac_sha1_96_aes128 12 false
    ∷ info Cksumtype.hmac_sha1_96_aes256 12 false
    ∷ info Cksumtype.arcfour_hmac_md5 16 false
    ∷ []

-- the loop of the table's look-ups: the first entry of the type
unfoldable pub find_checksum {ℓ} : {A : Type ℓ} → List ChecksumInfo → ℕ → (ChecksumInfo → A) → A → A
find_checksum [] type field missing = missing
find_checksum (c ∷ cs) type field missing =
    if type == c.cksumtype then field c else find_checksum cs type field missing

unfoldable pub checksum_supported_p : ℕ → Bool
unfolding find_checksum checksums
checksum_supported_p type = find_checksum checksums type (λ c. true) false

unfoldable pub checksum_cksumlen : ℕ → ℕ
unfolding find_checksum checksums
checksum_cksumlen type = find_checksum checksums type (λ c. c.cksumlen) size_max
