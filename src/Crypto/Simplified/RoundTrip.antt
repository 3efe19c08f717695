-- ===== src/Crypto/Simplified/RoundTrip.antt =====
-- Decryption takes back what encryption did, for the types of the simplified profile.
use shishi.Base.{
  ℕ, suc, ◌-◌, ◌%◌, ◌≤◌, ◌≡◌, refl, sym, ap, ◌∙◌, inl, inr, true, false, ◌++◌, Option, Bytes,
  length, take, replicate, ltb, ◌==◌, arith, length-append, length-replicate, str_equal,
  str_equal_self, ==_iff, take-append_self, drop-append_self, length-take_of_le, le→ltb_false,
}
use shishi.Outcome.{Outcome, ok}
use shishi.Outcome.Chain.{◌>>=◌, chain-eq-ok}
use shishi.Cipher.{cipher_blocksize, cipher_defaultcksumtype}
use shishi.Checksum.{checksum_cksumlen}
use shishi.Cipher.Etype
use shishi.Key.{Key}
use shishi.Crypto.Derive.{
  Primitives, padding, is_des3, simplified_dencrypt, simplified_derivekey, privacy, integrity,
}
use shishi.Crypto.Simplified.Profile.{
  IsLawful, IsProfile, padding_fills, des3-profile, simplified_derivekey-type,
  simplified_dencrypt_inverts,
}
use shishi.Crypto.Simplified.{
  mac_length, encrypt_padding, simplified_hmac, simplified_hmac_verify, confounded, encrypt_keyed,
  decrypt_keyed, without_confounder, simplified_encrypt, simplified_decrypt,
}

fields :
    {x y u v : Bytes}
    → ◌≡◌ {A = Outcome (Bytes × Bytes)} (ok (x, y)) (ok (u, v))
    → (x ≡ u) × (y ≡ v)
fields h = (cc, cc)

-- The text that is encrypted is whole blocks for triple DES.
confounded-des3 :
    (key : Key) (confounder text : Bytes)
    → key.type ≡ Etype.des3_cbc_hmac_sha1_kd
    → length confounder ≡ cipher_blocksize key.type
    → length (confounded key confounder text) % 8 ≡ 0
unfolding encrypt_padding cipher_blocksize
confounded-des3 key confounder text e l =
    let n = length text in
    let b : length confounder ≡ 8 = l ∙ ap cipher_blocksize e in
    let q : encrypt_padding key.type n ≡ padding n = ap (λ t. encrypt_padding t n) e in
    let z : Bytes = replicate (encrypt_padding key.type n) 0 in
    omega (
      arith,
      b,
      q,
      length-append confounder (text ++ z),
      length-append text z,
      length-replicate {A = ℕ} (encrypt_padding key.type n) 0,
      padding_fills n,
    )

module _ (P : Primitives) where
  -- What an encryption that succeeds went through.
  encrypt_keyed-eq-ok :
      (key : Key) (keyusage : ℕ) (iv : Option Bytes) (confounder text c ivout : Bytes)
      → encrypt_keyed P (ok confounder) key keyusage iv text ≡ ok (c, ivout)
      → (privacykey : Key) × (ct : Bytes) × (integritykey : Key) × (hmac : Bytes)
        × (simplified_derivekey P key keyusage privacy ≡ ok privacykey)
        × (simplified_dencrypt P privacykey iv (confounded key confounder text) false
            ≡ ok (ct, ivout))
        × (simplified_derivekey P key keyusage integrity ≡ ok integritykey)
        × (simplified_hmac P integritykey (confounded key confounder text) ≡ ok hmac)
        × (c ≡ ct ++ take (mac_length integritykey) hmac)
  unfolding encrypt_keyed
  encrypt_keyed-eq-ok key keyusage iv confounder text c ivout h =
      let pt = confounded key confounder text in
      let last = λ (ct : Bytes × Bytes) (k : Key) (hmac : Bytes).
        ok (ct.0 ++ take (mac_length k) hmac, ct.1) in
      let third = λ (ct : Bytes × Bytes) (k : Key). simplified_hmac P k pt >>= last ct k in
      let second =
        λ (ct : Bytes × Bytes). simplified_derivekey P key keyusage integrity >>= third ct in
      let first = λ (k : Key). simplified_dencrypt P k iv pt false >>= second in
      let a = chain-eq-ok (simplified_derivekey P key keyusage privacy) first h in
      let b = chain-eq-ok (simplified_dencrypt P (a.0) iv pt false) second (a.2) in
      let c = chain-eq-ok (simplified_derivekey P key keyusage integrity) (third (b.0)) (b.2) in
      let d = chain-eq-ok (simplified_hmac P (c.0) pt) (last (b.0) (c.0)) (c.2) in
      let e = fields (d.2) in
      (a.0, b.0.0, c.0, d.0, a.1, b.1 ∙ ap (λ v. ok (b.0.0, v)) (e.1), c.1, d.1, sym (e.0))

mac_length-le : (key : Key) → IsProfile key.type → mac_length key ≤ 20
unfolding mac_length checksum_cksumlen cipher_defaultcksumtype
mac_length-le key (inl e) = rw (e, mac_length) (omega arith)
mac_length-le key (inr (inl e)) = rw (e, mac_length) (omega arith)
mac_length-le key (inr (inr e)) = rw (e, mac_length) (omega arith)

mac_length-type : (key k : Key) → k.type ≡ key.type → mac_length k ≡ mac_length key
unfolding mac_length
mac_length-type key k e = ap (λ t. checksum_cksumlen (cipher_defaultcksumtype t)) e

without_confounder-append :
    (blen : ℕ) (confounder rest : Bytes)
    → length confounder ≡ blen
    → without_confounder blen (confounder ++ rest) ≡ ok rest
unfolding without_confounder
without_confounder-append blen confounder rest b =
    let t : ltb (length (confounder ++ rest)) blen ≡ false =
      le→ltb_false (length (confounder ++ rest)) blen
        (omega (arith, length-append confounder rest, b)) in
    rw (t, without_confounder, drop-append_self blen confounder rest b)

module _ (P : Primitives) where
  verify-ok :
      (k : Key) (text hash mac : Bytes)
      → simplified_hmac P k text ≡ ok hash
      → mac ≡ take (mac_length k) hash
      → length mac ≡ mac_length k
      → simplified_hmac_verify P k text mac ≡ ok tt
  unfolding simplified_hmac_verify
  verify-ok k text hash mac h e l =
      let n : mac_length k == length mac ≡ true = (==_iff (mac_length k) (length mac)).1 (sym l) in
      let s : str_equal (take (length mac) hash) mac ≡ true = rw (l, sym e) (str_equal_self mac) in
      rw (h, simplified_hmac_verify, n, s)

  -- Decrypting what stands in front of a MAC, from what its parts come to.
  decrypt_keyed-ok :
      (key privacykey integritykey : Key) (keyusage : ℕ) (iv : Option Bytes)
      → (ct mac confounder rest ivout : Bytes) → length mac ≡ mac_length key
      → length confounder ≡ cipher_blocksize key.type
      → simplified_derivekey P key keyusage privacy ≡ ok privacykey
      → simplified_dencrypt P privacykey iv ct true ≡ ok (confounder ++ rest, ivout)
      → simplified_derivekey P key keyusage integrity ≡ ok integritykey
      → simplified_hmac_verify P integritykey (confounder ++ rest) mac ≡ ok tt
      → decrypt_keyed P key keyusage iv (ct ++ mac) ≡ ok (rest, ivout)
  unfolding decrypt_keyed
  decrypt_keyed-ok key privacykey integritykey keyusage iv ct mac confounder rest ivout l b a d c
        v =
      let s = length-append ct mac in
      let n : length (ct ++ mac) - mac_length key ≡ length ct = omega (arith, s, l) in
      let t : ltb (length (ct ++ mac)) (mac_length key) ≡ false =
        le→ltb_false (length (ct ++ mac)) (mac_length key) (omega (arith, s, l)) in
      let w = without_confounder-append (cipher_blocksize key.type) confounder rest b in
      rw (
        a,
        decrypt_keyed,
        t,
        n,
        take-append_self (length ct) ct mac refl,
        drop-append_self (length ct) ct mac refl,
        d,
        c,
        v,
        w,
      )

  keyed :
      (key : Key) (keyusage : ℕ) (iv : Option Bytes) (c : Bytes)
      → simplified_decrypt P key (suc keyusage) iv c ≡ decrypt_keyed P key (suc keyusage) iv c
  unfolding simplified_decrypt
  keyed key keyusage iv c =
      let n : suc keyusage == 0 ≡ false = ground arith in rw (n, simplified_decrypt)

  -- For triple DES and AES, under laws of the block ciphers and of HMAC-SHA1: what
  -- `_shishi_simplified_encrypt` makes with a key usage, `_shishi_simplified_decrypt` with the same
  -- key, usage and iv takes back to the text, with the zeros behind it that the encryption padded
  -- it with.
  pub simplified_decrypt-simplified_encrypt :
      IsLawful P
      → (key : Key) (keyusage : ℕ) (iv : Option Bytes) (confounder text c ivout : Bytes)
      → IsProfile key.type
      → length confounder ≡ cipher_blocksize key.type
      → simplified_encrypt P (ok confounder) key (suc keyusage) iv text ≡ ok (c, ivout)
      → (ivout' : Bytes) × (simplified_decrypt P key (suc keyusage) iv c
          ≡ ok (text ++ replicate (encrypt_padding key.type (length text)) 0, ivout'))
  unfolding simplified_encrypt simplified_decrypt simplified_hmac
  simplified_decrypt-simplified_encrypt lawful key keyusage iv confounder text c ivout p b h =
      let n : suc keyusage == 0 ≡ false = ground arith in
      let (pk, ct, ik, hmac, a1, a2, a3, a4, e) =
        encrypt_keyed-eq-ok P key (suc keyusage) iv confounder text c ivout
          (rw (n, simplified_encrypt) at h) in
      let tp = simplified_derivekey-type P key pk keyusage privacy p a1 in
      let ti = simplified_derivekey-type P key ik keyusage integrity p a3 in
      let rest : Bytes = text ++ replicate (encrypt_padding key.type (length text)) 0 in
      let q : IsProfile pk.type = rw tp p in
      let blocks : is_des3 pk.type ≡ true → length (confounder ++ rest) % 8 ≡ 0 =
        λ d. confounded-des3 key confounder text (des3-profile key.type p (rw tp at d)) b in
      let r =
        simplified_dencrypt_inverts P lawful pk iv (confounder ++ rest) ct ivout q blocks a2 in
      let mac = take (mac_length ik) hmac in
      let ml = mac_length-type key ik ti in
      let l20 : length hmac ≡ 20 = lawful.hmac_length _ _ hmac a4 in
      let l : length mac ≡ mac_length ik =
        length-take_of_le (mac_length ik) hmac (omega (arith, ml, l20, mac_length-le key p)) in
      let v = verify-ok ik (confounder ++ rest) hmac mac a4 refl l in
      let d =
        decrypt_keyed-ok key pk ik (suc keyusage) iv ct mac confounder rest (r.1.0) (l ∙ ml) b a1
          (r.1.1) a3 v in
      (r.1.0, keyed key keyusage iv c ∙ ap (decrypt_keyed P key (suc keyusage) iv) e ∙ d)
