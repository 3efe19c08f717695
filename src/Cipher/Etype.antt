-- ===== src/Cipher/Etype.antt =====
-- The numbers of the encryption types: Shishi_etype of lib/shishi.h.
use shishi.Base.{ℕ}

abbrev pub null : ℕ
null = 0

abbrev pub des_cbc_crc : ℕ
des_cbc_crc = 1

abbrev pub des_cbc_md4 : ℕ
des_cbc_md4 = 2

abbrev pub des_cbc_md5 : ℕ
des_cbc_md5 = 3

abbrev pub des_cbc_none : ℕ
des_cbc_none = 4

abbrev pub des3_cbc_none : ℕ
des3_cbc_none = 6

abbrev pub des3_cbc_hmac_sha1_kd : ℕ
des3_cbc_hmac_sha1_kd = 16

abbrev pub aes128_cts_hmac_sha1_96 : ℕ
aes128_cts_hmac_sha1_96 = 17

abbrev pub aes256_cts_hmac_sha1_96 : ℕ
aes256_cts_hmac_sha1_96 = 18

abbrev pub arcfour_hmac : ℕ
arcfour_hmac = 23

abbrev pub arcfour_hmac_exp : ℕ
arcfour_hmac_exp = 24
