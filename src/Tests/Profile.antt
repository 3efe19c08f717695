-- ===== src/Tests/Profile.antt =====
-- The simplified profile with a block cipher that changes nothing and a hash of the text's first
-- bytes: runs and instances for Crypto.
use shishi.Base.{
  ℕ, ◌-◌, ◌≤◌, ◌≡◌, refl, inl, inr, true, [], ◌∷◌, ◌++◌, none, Bytes, length, take, drop, replicate,
  arith, length-append, length-replicate, length-take_of_le,
}
use shishi.Outcome.{ok, failed, crypto_error}
use shishi.Cipher.{cipher_blocksize, cipher_keylen, cipher_defaultcksumtype}
use shishi.Checksum.{checksum_cksumlen}
use shishi.Key.{Key, new_key, key_value_set, key_length}
use shishi.Crypto.NFold.{n_fold}
use shishi.Crypto.Derive.{
  Primitives, is_des, is_des3, is_aes, simplified_dencrypt, encrypt_unkeyed, dr_blocks, dr_constant,
  dr, random_to_key, aes_random_to_key, key_from_random, dk, simplified_derivekey, privacy,
  integrity,
}
use shishi.Crypto.Derive.Length.{Gives, dr_bounds}
use shishi.Crypto.Simplified.{
  mac_length, encrypt_padding, simplified_hmac, simplified_hmac_verify, encrypt_keyed,
  decrypt_keyed, without_confounder, simplified_encrypt, simplified_decrypt,
}
use shishi.Crypto.Simplified.Profile.{IsLawful}
use shishi.Crypto.Simplified.RoundTrip.{simplified_decrypt-simplified_encrypt}
use shishi.Crypto.Simplified.Authentic.{simplified_decrypt_authentic}

abbrev toy_hash : Bytes → Bytes
toy_hash text = take 20 (text ++ replicate 20 7)

abbrev toy : Primitives
toy = record {
  des = λ d k iv t. ok (t, []);
  des3 = λ d k iv t. ok (t, []);
  aes_cts = λ d k iv t. ok (t, []);
  hmac_sha1 = λ k t. ok (toy_hash t);
  encrypt_other = λ k t. failed crypto_error;
  random_to_key_other = λ r k. failed crypto_error;
}

length-toy_hash : (t : Bytes) → length (toy_hash t) ≡ 20
length-toy_hash t =
    length-take_of_le 20 (t ++ replicate 20 7)
      (omega (arith, length-append t (replicate 20 7), length-replicate {A = ℕ} 20 7))

toy-IsLawful : IsLawful toy
toy-IsLawful = record {
  des3_inverts = λ k iv t c i h. (cc, ([], cc));
  aes_inverts = λ k iv t c i h. (cc, ([], cc));
  hmac_length = λ k t h e. rw (ok-eq e) (length-toy_hash t);
}
  where
    ok-eq : {x y : Bytes} → ok x ≡ ok y → y ≡ x
    ok-eq h = cc

-- AES with 128 bits
abbrev aes_key : Key
aes_key = record new_key { type = 17 }

abbrev block : Bytes
block = replicate 16 9

-- The encryption of two bytes: the random block and the text, and twelve bytes of the hash.
encrypted :
    simplified_encrypt toy (ok block) aes_key 3 none (1 ∷ 2 ∷ [])
    ≡ ok (block ++ (1 ∷ 2 ∷ replicate 12 9), [])
unfolding simplified_encrypt encrypt_keyed simplified_derivekey dk dr dr_constant dr_blocks
    encrypt_unkeyed simplified_dencrypt is_des is_des3 is_aes key_from_random random_to_key
    aes_random_to_key simplified_hmac mac_length cipher_defaultcksumtype checksum_cksumlen
    cipher_blocksize cipher_keylen key_value_set n_fold encrypt_padding
encrypted = refl

simplified_decrypt-simplified_encrypt_example :
    (ivout' : Bytes) × (simplified_decrypt toy aes_key 3 none (block ++ (1 ∷ 2 ∷ replicate 12 9))
      ≡ ok (1 ∷ 2 ∷ [], ivout'))
unfolding encrypt_padding cipher_blocksize
simplified_decrypt-simplified_encrypt_example =
    simplified_decrypt-simplified_encrypt toy toy-IsLawful aes_key 2 none block (1 ∷ 2 ∷ [])
      (block ++ (1 ∷ 2 ∷ replicate 12 9)) [] (inr (inl refl)) refl encrypted

-- It decrypts.
decrypted :
    simplified_decrypt toy aes_key 3 none (block ++ (1 ∷ 2 ∷ replicate 12 9)) ≡ ok (1 ∷ 2 ∷ [], [])
unfolding simplified_decrypt decrypt_keyed without_confounder simplified_hmac_verify
    simplified_derivekey dk dr dr_constant dr_blocks encrypt_unkeyed simplified_dencrypt is_des
    is_des3 is_aes key_from_random random_to_key aes_random_to_key simplified_hmac mac_length
    cipher_defaultcksumtype checksum_cksumlen cipher_blocksize cipher_keylen key_value_set n_fold
    encrypt_padding
decrypted = refl

-- What an accepted text went through.
accepted :
    (privacykey : Key) × (integritykey : Key) × (out : Bytes) × (hash : Bytes) × (mac_length aes_key
      ≤ 30)
    × (simplified_derivekey toy aes_key 3 privacy ≡ ok privacykey)
    × (simplified_derivekey toy aes_key 3 integrity ≡ ok integritykey)
    × (simplified_dencrypt toy privacykey none
          (take (30 - mac_length aes_key) (block ++ (1 ∷ 2 ∷ replicate 12 9)))
          true
        ≡ ok (out, []))
    × (simplified_hmac toy integritykey out ≡ ok hash)
    × (drop (30 - mac_length aes_key) (block ++ (1 ∷ 2 ∷ replicate 12 9))
        ≡ take (mac_length integritykey) hash)
    × (1 ∷ 2 ∷ [] ≡ drop (cipher_blocksize 17) out)
accepted =
    simplified_decrypt_authentic toy aes_key 2 none (block ++ (1 ∷ 2 ∷ replicate 12 9)) (1 ∷ 2 ∷ [])
      [] decrypted

simplified_decrypt_authentic_example :
    (privacykey : Key) × (integritykey : Key) × (out : Bytes) × (hash : Bytes) × (mac_length aes_key
      ≤ 30)
    × (simplified_derivekey toy aes_key 3 privacy ≡ ok privacykey)
    × (simplified_derivekey toy aes_key 3 integrity ≡ ok integritykey)
    × (simplified_dencrypt toy privacykey none
          (take (30 - mac_length aes_key) (block ++ (1 ∷ 2 ∷ replicate 12 9)))
          true
        ≡ ok (out, []))
    × (simplified_hmac toy integritykey out ≡ ok hash)
    × (drop (30 - mac_length aes_key) (block ++ (1 ∷ 2 ∷ replicate 12 9))
        ≡ take (mac_length integritykey) hash)
    × (1 ∷ 2 ∷ [] ≡ drop (cipher_blocksize 17) out)
simplified_decrypt_authentic_example =
    simplified_decrypt_authentic toy aes_key 2 none (block ++ (1 ∷ 2 ∷ replicate 12 9)) (1 ∷ 2 ∷ [])
      [] decrypted

dr_bounds_example :
    Gives (key_length aes_key) (dr toy aes_key (0 ∷ 0 ∷ 0 ∷ 3 ∷ 0xAA ∷ []) (key_length aes_key))
    × (key_length aes_key ≤ 32)
dr_bounds_example =
    dr_bounds toy aes_key (0 ∷ 0 ∷ 0 ∷ 3 ∷ 0xAA ∷ []) ((λ d k i t e. cc), (λ d k i t e. cc))
      (inr (inl refl)) (omega arith) (omega arith)
