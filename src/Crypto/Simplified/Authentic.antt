-- ===== src/Crypto/Simplified/Authentic.antt =====
-- What _shishi_simplified_decrypt of lib/crypto.c accepts, and what it does with a short input.
use shishi.Base.{
  ℕ, suc, ◌-◌, ◌≤◌, ◌<◌, ◌≡◌, refl, sym, ap, ◌∙◌, Bool, true, false, Option, Bytes, length, take,
  drop, ltb, ◌==◌, ◌&&◌, if◌then◌else◌, arith, str_equal, eq_of_str_equal, ==_iff, lt→ltb,
}
use shishi.Outcome.{Outcome, ok, failed, overrun, crypto_error}
use shishi.Outcome.Chain.{◌>>=◌, chain-eq-ok}
use shishi.Cipher.{cipher_blocksize}
use shishi.Key.{Key}
use shishi.Crypto.Derive.{Primitives, simplified_dencrypt, simplified_derivekey, privacy, integrity}
use shishi.Crypto.Simplified.{
  mac_length, simplified_hmac, simplified_hmac_verify, decrypt_keyed, without_confounder,
  simplified_decrypt,
}

and_parts : (a b : Bool) → a && b ≡ true → (a ≡ true) × (b ≡ true)
and_parts true b h = (refl, h)
and_parts false b h = cc

not_overrun :
    {A : Type 0} (b : Bool) (m : Outcome A) (a : A)
    → (if b then overrun else m) ≡ ok a
    → (b ≡ false) × (m ≡ ok a)
not_overrun true m a h = cc
not_overrun false m a h = (refl, h)

le_of_ltb : (a b : ℕ) → ltb a b ≡ false → b ≤ a
le_of_ltb a b h = ground arith

fields :
    {x y u v : Bytes}
    → ◌≡◌ {A = Outcome (Bytes × Bytes)} (ok (x, y)) (ok (u, v))
    → (x ≡ u) × (y ≡ v)
fields h = (cc, cc)

without_confounder-eq-ok :
    (blen : ℕ) (out text : Bytes) → without_confounder blen out ≡ ok text → drop blen out ≡ text
unfolding without_confounder
without_confounder-eq-ok blen out text h =
    let p = (not_overrun (ltb (length out) blen) (ok (drop blen out)) text h).1 in cc

accepted :
    (b : Bool)
    → ◌≡◌ {A = Outcome (Unit {0})} (if b then ok tt else failed crypto_error) (ok tt)
    → b ≡ true
accepted true h = refl
accepted false h = cc

module _ (P : Primitives) where
  -- A MAC that is accepted is the start of the hash.
  verify-eq-ok :
      (k : Key) (text mac : Bytes)
      → simplified_hmac_verify P k text mac ≡ ok tt
      → (hash : Bytes) × (simplified_hmac P k text ≡ ok hash)
        × (take (length mac) hash ≡ mac)
        × (length mac ≡ mac_length k)
  unfolding simplified_hmac_verify
  verify-eq-ok k text mac h =
      let check = λ (hash : Bytes).
        if mac_length k == length mac && str_equal (take (length mac) hash) mac
        then ok tt
        else failed crypto_error in
      let r = chain-eq-ok (simplified_hmac P k text) check h in
      let b = mac_length k == length mac && str_equal (take (length mac) (r.0)) mac in
      let e = accepted b (r.2) in
      let p = and_parts (mac_length k == length mac) (str_equal (take (length mac) (r.0)) mac) e in
      (
        r.0,
        r.1,
        eq_of_str_equal (take (length mac) (r.0)) mac (p.1),
        sym ((==_iff (mac_length k) (length mac)).0 (p.0)),
      )

  -- A text that `_shishi_simplified_decrypt` gives with a key usage is authenticated: the input
  -- ends with the MAC, under the integrity key, of all that the rest decrypts to under the privacy
  -- key, and the text is that without the first block.
  pub simplified_decrypt_authentic :
      (key : Key) (keyusage : ℕ) (iv : Option Bytes) (c text ivout : Bytes)
      → simplified_decrypt P key (suc keyusage) iv c ≡ ok (text, ivout)
      → (privacykey : Key) × (integritykey : Key) × (out : Bytes) × (hash : Bytes) × (mac_length key
          ≤ length c)
        × (simplified_derivekey P key (suc keyusage) privacy ≡ ok privacykey)
        × (simplified_derivekey P key (suc keyusage) integrity ≡ ok integritykey)
        × (simplified_dencrypt P privacykey iv (take (length c - mac_length key) c) true
            ≡ ok (out, ivout))
        × (simplified_hmac P integritykey out ≡ ok hash)
        × (drop (length c - mac_length key) c ≡ take (mac_length integritykey) hash)
        × (text ≡ drop (cipher_blocksize key.type) out)
  unfolding simplified_decrypt decrypt_keyed
  simplified_decrypt_authentic key keyusage iv c text ivout h =
      let n : suc keyusage == 0 ≡ false = ground arith in
      let u = suc keyusage in
      let k = length c - mac_length key in
      let mac = drop k c in
      let blen = cipher_blocksize key.type in
      let fifth = λ (out : Bytes × Bytes) (text : Bytes). ok (text, out.1) in
      let fourth =
        λ (out : Bytes × Bytes) (_ : Unit {0}). without_confounder blen (out.0) >>= fifth out in
      let third = λ (out : Bytes × Bytes) (ik : Key).
        simplified_hmac_verify P ik (out.0) mac >>= fourth out in
      let second = λ (out : Bytes × Bytes). simplified_derivekey P key u integrity >>= third out in
      let whole = λ (pk : Key). simplified_dencrypt P pk iv (take k c) true >>= second in
      let first = λ (pk : Key). if ltb (length c) (mac_length key) then overrun else whole pk in
      let a =
        chain-eq-ok (simplified_derivekey P key u privacy) first
          (rw (n, simplified_decrypt) at h) in
      let g = not_overrun (ltb (length c) (mac_length key)) (whole (a.0)) (text, ivout) (a.2) in
      let b = chain-eq-ok (simplified_dencrypt P (a.0) iv (take k c) true) second (g.1) in
      let d = chain-eq-ok (simplified_derivekey P key u integrity) (third (b.0)) (b.2) in
      let v = chain-eq-ok (simplified_hmac_verify P (d.0) (b.0.0) mac) (fourth (b.0)) (d.2) in
      let w = chain-eq-ok (without_confounder blen (b.0.0)) (fifth (b.0)) (v.2) in
      let f = fields (w.2) in
      let y = verify-eq-ok (d.0) (b.0.0) mac (v.1) in
      let x = without_confounder-eq-ok blen (b.0.0) (w.0) (w.1) in
      (
        a.0,
        d.0,
        b.0.0,
        y.0,
        le_of_ltb (length c) (mac_length key) (g.0),
        a.1,
        d.1,
        b.1 ∙ ap (λ z. ok (b.0.0, z)) (f.1),
        y.1,
        sym (y.2) ∙ ap (λ l. take l (y.0)) (y.3),
        sym (f.0) ∙ sym x,
      )

  -- An input shorter than its MAC makes `_shishi_simplified_decrypt` read beyond it, once the
  -- privacy key is derived: the length of what is to be decrypted wraps.
  pub simplified_decrypt_overrun :
      (key privacykey : Key) (keyusage : ℕ) (iv : Option Bytes) (c : Bytes)
      → simplified_derivekey P key (suc keyusage) privacy ≡ ok privacykey
      → length c < mac_length key
      → simplified_decrypt P key (suc keyusage) iv c ≡ overrun
  unfolding simplified_decrypt decrypt_keyed
  simplified_decrypt_overrun key privacykey keyusage iv c a l =
      let n : suc keyusage == 0 ≡ false = ground arith in
      rw (n, simplified_decrypt, a, decrypt_keyed, lt→ltb (length c) (mac_length key) l)
