-- ===== src/Cipher/Cksumtype.antt =====
-- The numbers of the checksum types: Shishi_cksumtype of lib/shishi.h, as 32-bit patterns.
use shishi.Base.{ℕ, ◌-◌, ◌^◌}

abbrev pub crc32 : ℕ
crc32 = 1

abbrev pub rsa_md4 : ℕ
rsa_md4 = 2

abbrev pub rsa_md4_des : ℕ
rsa_md4_des = 3

abbrev pub rsa_md5 : ℕ
rsa_md5 = 7

abbrev pub rsa_md5_des : ℕ
rsa_md5_des = 8

abbrev pub rsa_md5_des_gss : ℕ
rsa_md5_des_gss = 9

abbrev pub hmac_sha1_des3_kd : ℕ
hmac_sha1_des3_kd = 12

abbrev pub hmac_sha1_96_aes128 : ℕ
hmac_sha1_96_aes128 = 15

abbrev pub hmac_sha1_96_aes256 : ℕ
hmac_sha1_96_aes256 = 16

-- -138
abbrev pub arcfour_hmac_md5 : ℕ
arcfour_hmac_md5 = 2 ^ 32 - 138
