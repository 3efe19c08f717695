-- ===== src/Crypto/Derive/Length.antt =====
-- How much shishi_dr of lib/crypto.c stores, and the parity of the keys that
-- lib/crypto-3des.c makes.
use shishi.Base.{
  ℕ, zero, suc, ◌+◌, ◌*◌, ◌/◌, ◌%◌, ◌≤◌, ◌<◌, ◌≡◌, ◌≢◌, refl, ap, ◌∙◌, ◌⊎◌, inl, inr, Bool, true,
  false, [], ◌++◌, Option, none, Bytes, length, take, replicate, ltb, ◌==◌, if◌then◌else◌, arith,
  Bool-cases, length-append, lt→ltb, le→ltb_false, ==_iff,
}
use shishi.Outcome.{Outcome, Rc, ok, failed, overrun, crypto_error}
use shishi.Outcome.Chain.{◌>>=◌, Outcome-cases}
use shishi.Cipher.{cipher_blocksize, cipher_keylen}
use shishi.Key.{Key, key_length}
use shishi.Crypto.NFold.{lcm, replications, add_chunks, n_fold}
use shishi.Crypto.Simplified.Profile.{IsProfile, family}
use shishi.Crypto.Derive.{
  max_random_len, padded, Primitives, encrypt_unkeyed, dr_blocks, dr_constant, dr,
  max_dr_prfconstant, simplified_dencrypt, odd_parity, n_set_bits,
}

-- A call that gives a result of a length, or a return code.
abbrev pub Gives : ℕ → Outcome Bytes → Type 0
Gives n m = ((r : Bytes) × (m ≡ ok r) × (length r ≡ n)) ⊎ ((rc : Rc) × (m ≡ failed rc))

rounds_step : (k b d l : ℕ) → d + suc (suc k) * b ≡ l → (d + b) + suc k * b ≡ l
rounds_step k b d l e = grind arith

rounds_lt : (k b d l : ℕ) → 0 < b → d + suc (suc k) * b ≡ l → d + b < l
rounds_lt k b d l h e = grind arith

module _ (P : Primitives) (key : Key) (blocksize fuel len : ℕ) (plaintext done cipher : Bytes) where
  turn :
      encrypt_unkeyed P key plaintext ≡ ok cipher
      → length cipher == blocksize ≡ true
      → dr_blocks P (suc fuel) key blocksize len plaintext done ≡ (
          if ltb (length (done ++ cipher)) len
          then dr_blocks P fuel key blocksize len cipher (done ++ cipher)
          else ok (done ++ cipher))
  unfolding dr_blocks
  turn q s = rw (q, dr_blocks, s)

  turn_failed :
      encrypt_unkeyed P key plaintext ≡ ok cipher
      → length cipher == blocksize ≡ false
      → dr_blocks P (suc fuel) key blocksize len plaintext done ≡ failed crypto_error
  unfolding dr_blocks
  turn_failed q s = rw (q, dr_blocks, s)

  turn_more :
      ltb (length (done ++ cipher)) len ≡ true
      → (if ltb (length (done ++ cipher)) len
          then dr_blocks P fuel key blocksize len cipher (done ++ cipher)
          else ok (done ++ cipher))
        ≡ dr_blocks P fuel key blocksize len cipher (done ++ cipher)
  turn_more t = rw t

  turn_last :
      ltb (length (done ++ cipher)) len ≡ false
      → (if ltb (length (done ++ cipher)) len
          then dr_blocks P fuel key blocksize len cipher (done ++ cipher)
          else ok (done ++ cipher))
        ≡ ok (done ++ cipher)
  turn_last t = rw t

turn_stops :
    (P : Primitives) (key : Key) (blocksize fuel len : ℕ) (plaintext done : Bytes) (rc : Rc)
    → encrypt_unkeyed P key plaintext ≡ failed rc
    → dr_blocks P (suc fuel) key blocksize len plaintext done ≡ failed rc
unfolding dr_blocks
turn_stops P key blocksize fuel len plaintext done rc q = rw (q, dr_blocks)

sizes :
    (type : ℕ)
    → IsProfile type
    → (k : ℕ) × (0 < cipher_blocksize type)
      × (suc k * cipher_blocksize type ≡ cipher_keylen type)
      × (cipher_keylen type ≤ 32)
unfolding cipher_blocksize cipher_keylen
sizes type (inl e) = rw e (2, omega arith, omega arith, omega arith)
sizes type (inr (inl e)) = rw e (0, omega arith, omega arith, omega arith)
sizes type (inr (inr e)) = rw e (1, omega arith, omega arith, omega arith)

module _ (P : Primitives) where
  dr_blocks_lem :
      (key : Key)
      → ((text : Bytes) → encrypt_unkeyed P key text ≢ overrun)
      → (blocksize k fuel len : ℕ) (plaintext done : Bytes) → 0 < blocksize
      → length done + suc k * blocksize ≡ len
      → k < fuel
      → Gives len (dr_blocks P fuel key blocksize len plaintext done)
  dr_blocks_lem key safe bs k zero len pt done b e h = absurd (omega arith)
  dr_blocks_lem key safe bs k (suc fuel) len pt done b e h =
      elim (Outcome-cases (encrypt_unkeyed P key pt)) [
        | inl (cipher, q) ↦ elim (Bool-cases (length cipher == bs)) [
          | inl s ↦
              let l : length (done ++ cipher) ≡ length done + bs =
                length-append done cipher
                ∙ ap (λ n. length done + n) ((==_iff (length cipher) bs).0 s) in
              rw (turn P key bs fuel len pt done cipher q s) (
                rounds cipher k l e
                  (λ k' e' h'.
                    dr_blocks_lem key safe bs k' fuel len cipher (done ++ cipher) b e' h')
                  h)
          | inr s ↦ inr (crypto_error, turn_failed P key bs fuel len pt done cipher q s)
        ]
        | inr (inl (rc, q)) ↦ inr (rc, turn_stops P key bs fuel len pt done rc q)
        | inr (inr q) ↦ absurd (safe pt q)
      ]
    where
      rounds :
          (cipher : Bytes) (k : ℕ)
          → length (done ++ cipher) ≡ length done + bs
          → length done + suc k * bs ≡ len
          → ((k' : ℕ)
              → length (done ++ cipher) + suc k' * bs ≡ len
              → k' < fuel
              → Gives len (dr_blocks P fuel key bs len cipher (done ++ cipher)))
          → k < suc fuel
          → Gives len (
              if ltb (length (done ++ cipher)) len
              then dr_blocks P fuel key bs len cipher (done ++ cipher)
              else ok (done ++ cipher))
      rounds cipher zero l e ih h =
          let t = le→ltb_false (length (done ++ cipher)) len (omega arith) in
          inl (done ++ cipher, turn_last P key bs fuel len pt done cipher t, omega arith)
      rounds cipher (suc k) l e ih h =
          let t =
            lt→ltb (length (done ++ cipher)) len
              (omega (arith, l, rounds_lt k bs (length done) len b e)) in
          rw (turn_more P key bs fuel len pt done cipher t)
            (ih k (omega (arith, l, rounds_step k bs (length done) len e)) (omega arith))

  -- The block ciphers of the profile stay in their buffers.
  abbrev pub IsSafe : Type 0
  IsSafe =
      ((d : Bool) (key : Bytes) (iv : Option Bytes) (text : Bytes) → P.des3 d key iv text ≢ overrun)
      × ((d : Bool) (key : Bytes) (iv : Option Bytes) (text : Bytes)
          → P.aes_cts d key iv text ≢ overrun)

  dropping_iv : (m : Outcome (Bytes × Bytes)) → m ≢ overrun → (m >>= λ r. ok (r.0)) ≢ overrun
  dropping_iv (ok a) h e = cc
  dropping_iv (failed rc) h e = cc
  dropping_iv overrun h e = h refl

  encrypt_unkeyed_safe :
      IsSafe
      → (key : Key) → IsProfile key.type
      → (text : Bytes) → encrypt_unkeyed P key text ≢ overrun
  unfolding encrypt_unkeyed simplified_dencrypt
  encrypt_unkeyed_safe s key p text =
      let f = family key.type p in
      elim (f.1) [
        | inl (e, _) ↦
            rw (e, encrypt_unkeyed, f.0, simplified_dencrypt)
              (dropping_iv _ (s.0 false (take 24 key.value) none (padded text)))
        | inr (d, e) ↦
            rw (d, e, encrypt_unkeyed, f.0, simplified_dencrypt)
              (dropping_iv _ (s.1 false (take (key_length key) key.value) none text))
      ]

  dr_constant-ok :
      (prfconstant : Bytes) (blocksize : ℕ)
      → 0 < length prfconstant
      → 0 < blocksize
      → (plaintext : Bytes) × (dr_constant prfconstant blocksize ≡ ok plaintext)
  unfolding dr_constant n_fold
  dr_constant-ok prfconstant blocksize some_bytes some_block =
      let m : (length prfconstant == 0) ≡ false = ground arith in
      let n : (blocksize == 0) ≡ false = ground arith in
      let size = lcm (length prfconstant) blocksize in
      let folded =
        add_chunks (size / blocksize) blocksize (replicate blocksize 0)
          (replications (size / length prfconstant) prfconstant) in
      elim (Bool-cases (length prfconstant == blocksize)) [
        | inl e ↦ (prfconstant, rw e refl)
        | inr e ↦ (folded, rw (e, n_fold, m, n) refl)
      ]

  -- For triple DES and AES, with block ciphers that stay in their buffers, and a constant of 1 to
  -- 1024 bytes: `shishi_dr` ends, and unless the cipher or the sizes of its blocks are refused it
  -- stores exactly as many bytes as the key has, which the buffer of `shishi_dk` has room for.
  pub dr_bounds :
      (key : Key) (prfconstant : Bytes)
      → IsSafe
      → IsProfile key.type
      → 0 < length prfconstant
      → length prfconstant ≤ max_dr_prfconstant
      → Gives (key_length key) (dr P key prfconstant (key_length key))
        × (key_length key ≤ max_random_len)
  unfolding dr
  dr_bounds key prfconstant s p some_bytes l =
      let t = le→ltb_false max_dr_prfconstant (length prfconstant) l in
      let (k, b, e, m) = sizes key.type p in
      let (plaintext, first) =
        dr_constant-ok prfconstant (cipher_blocksize key.type) some_bytes b in
      (
        rw (t, dr, first)
            (dr_blocks_lem key (encrypt_unkeyed_safe s key p) (cipher_blocksize key.type) k
              (suc (key_length key)) (key_length key) plaintext [] b (omega (arith, e))
              (omega (arith, grows k (cipher_blocksize key.type) b, e))),
        m,
      )
    where
      grows : (k b : ℕ) → 0 < b → k < suc k * b
      grows k b h = grind arith

odd_parity_lem : (x : ℕ) → x < 256 → (n_set_bits (odd_parity x) + odd_parity x % 2) % 2 ≡ 1
unfolding odd_parity n_set_bits
odd_parity_lem x h = ground arith
