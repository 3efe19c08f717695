-- ===== src/Crypto/Simplified/Profile.antt =====
-- The types of the simplified profile, what is asked of the primitives, and what key derivation and
-- one block cipher call do for them: lib/crypto.c.
use shishi.Base.{
  ℕ, suc, ◌+◌, ◌%◌, ◌≡◌, sym, ◌∙◌, ◌⊎◌, inl, inr, Bool, true, false, [], ◌∷◌, Option, Bytes, length,
  take, ltb, ◌==◌, arith, append-nil, Bool-cases,
}
use shishi.Outcome.{Outcome, ok}
use shishi.Outcome.Chain.{chain-eq-ok}
use shishi.Cipher.Etype
use shishi.Key.{Key, key_length, key_type_set, key_value_set, new_key}
use shishi.Wire.{be32}
use shishi.Crypto.Derive.{
  Primitives, padding, pad_loop, padded, is_des, is_des3, is_aes, simplified_dencrypt,
  simplified_derivekey, DerivekeyMode, random_to_key, des3_random_to_key, aes_random_to_key, dk, dr,
  key_from_random, mode_byte,
}

-- A block cipher: what it encrypts has as many bytes, and it decrypts under the same key and iv.
abbrev pub Inverts : (Bool → Bytes → Option Bytes → Bytes → Outcome (Bytes × Bytes)) → Type 0
Inverts cipher =
    (key : Bytes) (iv : Option Bytes) (text ct ivout : Bytes)
    → cipher false key iv text ≡ ok (ct, ivout)
    → (length ct ≡ length text) × ((ivout' : Bytes) × (cipher true key iv ct ≡ ok (text, ivout')))

-- What the profile takes for granted of its primitives: HMAC-SHA1 gives 20 bytes.
pub record IsLawful (P : Primitives) : Type 0 where
  pub des3_inverts : Inverts P.des3
  pub aes_inverts : Inverts P.aes_cts
  pub hmac_length : (key text hash : Bytes) → P.hmac_sha1 key text ≡ ok hash → length hash ≡ 20

-- The types of the profile with a MAC.
abbrev pub IsProfile : ℕ → Type 0
IsProfile type =
    (type ≡ Etype.des3_cbc_hmac_sha1_kd)
    ⊎ (type ≡ Etype.aes128_cts_hmac_sha1_96)
    ⊎ (type ≡ Etype.aes256_cts_hmac_sha1_96)

pub padding_zero : (n : ℕ) → n % 8 ≡ 0 → padding n ≡ 0
unfolding padding pad_loop
padding_zero n h = ground arith

pub padding_fills : (n : ℕ) → (n + padding n) % 8 ≡ 0
unfolding padding pad_loop
padding_fills n = ground arith

-- The three families, by the tests of the code.
pub family :
    (type : ℕ)
    → IsProfile type
    → (is_des type ≡ false)
      × (((is_des3 type ≡ true) × (type ≡ Etype.des3_cbc_hmac_sha1_kd))
          ⊎ ((is_des3 type ≡ false) × (is_aes type ≡ true)))
unfolding is_des is_des3 is_aes
family type (inl e) = (ground arith, inl (ground arith, e))
family type (inr (inl e)) = (ground arith, inr (ground arith, ground arith))
family type (inr (inr e)) = (ground arith, inr (ground arith, ground arith))

pub des3-profile :
    (type : ℕ) → IsProfile type → is_des3 type ≡ true → type ≡ Etype.des3_cbc_hmac_sha1_kd
unfolding is_des3
des3-profile type (inl e) h = e
des3-profile type (inr (inl e)) h = absurd (ground arith)
des3-profile type (inr (inr e)) h = absurd (ground arith)

key_value_set-type :
    (key k : Key) (value : Bytes) → key_value_set key value ≡ ok k → k.type ≡ key.type
unfolding key_value_set
key_value_set-type key k value h = ground arith

des3_random_to_key-type :
    (rnd : Bytes) (key k : Key) → des3_random_to_key rnd key ≡ ok k → k.type ≡ key.type
unfolding des3_random_to_key
des3_random_to_key-type rnd key k h = elim (Bool-cases (ltb (length rnd) 21)) [
  | inl e ↦ cc (rw (e, des3_random_to_key) at h)
  | inr e ↦ key_value_set-type key k _ (rw (e, des3_random_to_key) at h)
]

aes_random_to_key-type :
    (rnd : Bytes) (key k : Key) → aes_random_to_key rnd key ≡ ok k → k.type ≡ key.type
unfolding aes_random_to_key
aes_random_to_key-type rnd key k h = elim (Bool-cases (ltb (length rnd) (key_length key))) [
  | inl e ↦ cc (rw (e, aes_random_to_key) at h)
  | inr e ↦ key_value_set-type key k rnd (rw (e, aes_random_to_key) at h)
]

module _ (P : Primitives) where
  random_to_key-type :
      (type : ℕ) (rnd : Bytes) (key k : Key)
      → IsProfile type
      → random_to_key P type rnd key ≡ ok k
      → k.type ≡ type
  unfolding random_to_key
  random_to_key-type type rnd key k p h = elim ((family type p).1) [
    | inl (e, _) ↦
        des3_random_to_key-type rnd (key_type_set key type) k (rw (e, random_to_key) at h)
    | inr (d, e) ↦
        aes_random_to_key-type rnd (key_type_set key type) k (rw (d, e, random_to_key) at h)
  ]

  key_from_random-type :
      (key derivedkey k : Key) (keylen : ℕ) (rnd : Bytes)
      → IsProfile key.type
      → key_from_random P key keylen derivedkey rnd ≡ ok k
      → k.type ≡ key.type
  unfolding key_from_random
  key_from_random-type key derivedkey k keylen rnd p h = elim (Bool-cases (ltb 32 (length rnd))) [
    | inl e ↦ cc (rw (e, key_from_random) at h)
    | inr e ↦
        random_to_key-type key.type (take keylen rnd) derivedkey k p (rw (e, key_from_random) at h)
  ]

  dk-type :
      (key derivedkey k : Key) (prfconstant : Bytes)
      → IsProfile key.type
      → dk P key prfconstant derivedkey ≡ ok k
      → k.type ≡ key.type
  unfolding dk
  dk-type key derivedkey k prfconstant p h =
      let typed = key_type_set derivedkey key.type in
      let r =
        chain-eq-ok (dr P key prfconstant (key_length typed))
          (key_from_random P key (key_length typed) typed) h in
      key_from_random-type key typed k (key_length typed) (r.0) p (r.2)

  pub simplified_derivekey-type :
      (key k : Key) (keyusage : ℕ) (mode : DerivekeyMode)
      → IsProfile key.type
      → simplified_derivekey P key (suc keyusage) mode ≡ ok k
      → k.type ≡ key.type
  unfolding simplified_derivekey
  simplified_derivekey-type key k keyusage mode p h =
      let n : suc keyusage == 0 ≡ false = ground arith in
      dk-type key (key_type_set new_key key.type) k (be32 (suc keyusage) (mode_byte mode ∷ [])) p
        (rw (n, simplified_derivekey) at h)

  -- Data in whole blocks of 8 bytes: all that is asked of data for triple DES.
  abbrev pub InBlocks : ℕ → Bytes → Type 0
  InBlocks type text = is_des3 type ≡ true → length text % 8 ≡ 0

  dencrypt-des3 :
      (key : Key) (iv : Option Bytes) (text : Bytes) (d : Bool)
      → is_des key.type ≡ false
      → is_des3 key.type ≡ true
      → length text % 8 ≡ 0
      → simplified_dencrypt P key iv text d ≡ P.des3 d (take 24 key.value) iv text
  unfolding simplified_dencrypt
  dencrypt-des3 key iv text d e f b =
      let s : padded text ≡ text = (rw (padding_zero (length text) b) (append-nil text)) in
      rw (e, f, simplified_dencrypt, s)

  dencrypt-aes :
      (key : Key) (iv : Option Bytes) (text : Bytes) (d : Bool)
      → is_des key.type ≡ false
      → is_des3 key.type ≡ false
      → is_aes key.type ≡ true
      → simplified_dencrypt P key iv text d ≡ P.aes_cts d (take (key_length key) key.value) iv text
  unfolding simplified_dencrypt
  dencrypt-aes key iv text d e f g = rw (e, f, g, simplified_dencrypt)

  pub simplified_dencrypt_inverts :
      IsLawful P
      → (key : Key) (iv : Option Bytes) (text ct ivout : Bytes) → IsProfile key.type
      → InBlocks key.type text
      → simplified_dencrypt P key iv text false ≡ ok (ct, ivout)
      → (length ct ≡ length text)
        × ((ivout' : Bytes) × (simplified_dencrypt P key iv ct true ≡ ok (text, ivout')))
  simplified_dencrypt_inverts lawful key iv text ct ivout p b h =
      let f = family key.type p in
      elim (f.1) [
        | inl (e, _) ↦
            let r =
              lawful.des3_inverts (take 24 key.value) iv text ct ivout
                (sym (dencrypt-des3 key iv text false (f.0) e (b e)) ∙ h) in
            let l : length ct % 8 ≡ 0 = omega (arith, r.0, b e) in
            (r.0, (r.1.0, dencrypt-des3 key iv ct true (f.0) e l ∙ r.1.1))
        | inr (d, e) ↦
            let r =
              lawful.aes_inverts (take (key_length key) key.value) iv text ct ivout
                (sym (dencrypt-aes key iv text false (f.0) d e) ∙ h) in
            (r.0, (r.1.0, dencrypt-aes key iv ct true (f.0) d e ∙ r.1.1))
      ]
