-- ===== src/Shisa/Key/RoundTrip.antt =====
-- What read_key of db/file.c makes of a file that shisa_file_key_add wrote.
use shishi.Base.{
  ℕ, ◌^◌, ◌<◌, ◌≡◌, ◌≢◌, refl, sym, ap, ◌∙◌, true, false, Option, none, some, [], ◌∷◌, ◌++◌,
  append-nil, Bytes, All, length, leb, ltb, ◌==◌, if◌then◌else◌, arith, le→leb, length-append,
  take-append_self, drop-append_self,
}
use shishi.Shisa.Number.{
  print_unsigned, EndsNumber, scan_unsigned-print_unsigned, scan_unsigned_space,
}
use shishi.Shisa.Key.{
  ShisaKey, c_string, password_bytes, key_text, with_number, scan_number, read_field, read_fields,
  read_priority, read_behind_priority, read_key,
}

-- What a key's numbers and lengths fit
abbrev pub IsStorable : ShisaKey → Type 0
IsStorable k =
    (k.etype < 2 ^ 32)
    × (k.priority < 2 ^ 32)
    × (length k.key < 2 ^ 64)
    × (length k.salt < 2 ^ 64)
    × (length k.str2keyparam < 2 ^ 64)
    × (length (password_bytes k.password) < 2 ^ 64)
    × All (λ c. c ≢ 0) (password_bytes k.password)

-- A password of no bytes is read as none.
abbrev pub kept_password : Option Bytes → Option Bytes
kept_password none = none
kept_password (some []) = none
kept_password (some (c ∷ cs)) = some (c ∷ cs)

-- The key that comes back: its version number is not in the file.
abbrev pub stored : ShisaKey → ShisaKey
stored k = record {
  kvno = 0;
  etype = k.etype;
  priority = k.priority;
  key = k.key;
  salt = k.salt;
  str2keyparam = k.str2keyparam;
  password = kept_password k.password;
}

c_string_self : (cs : Bytes) → All (λ c. c ≢ 0) cs → c_string cs ≡ cs
c_string_self [] h = refl
c_string_self (c ∷ cs) (h, hs) =
    let e : (c == 0) ≡ false = ground arith in rw (e, c_string_self cs hs, c_string)

module _ {A : Type 0} where
  read_field_then :
      (n : ℕ) (field rest : Bytes) (k : Bytes → Bytes → Option A) {r : Option A}
      → length field ≡ n
      → k field rest ≡ r
      → read_field n (field ++ rest) k ≡ r
  read_field_then n field rest k e p =
      let fits : leb n (length (field ++ rest)) ≡ true =
        le→leb n (length (field ++ rest)) (omega (arith, length-append field rest)) in
      rw (fits, take-append_self n field rest e, drop-append_self n field rest e) p

  read_field_last :
      (field : Bytes) (k : Bytes → Bytes → Option A) {r : Option A}
      → k field [] ≡ r
      → read_field (length field) field k ≡ r
  read_field_last field k p =
      ap (λ t. read_field (length field) t k) (sym (append-nil field))
      ∙ read_field_then (length field) field [] k refl p

  scan_number_first :
      (width n : ℕ) (rest : Bytes) (k : ℕ → Bytes → Option A) {r : Option A}
      → n < 2 ^ width
      → n < 2 ^ 64
      → EndsNumber rest
      → k n rest ≡ r
      → scan_number width (print_unsigned n ++ rest) k ≡ r
  scan_number_first width n rest k h b q p =
      ap (λ r. with_number r k) (scan_unsigned-print_unsigned width n rest h b q) ∙ p

  scan_number_next :
      (n : ℕ) (rest : Bytes) (k : ℕ → Bytes → Option A) {r : Option A}
      → n < 2 ^ 64
      → EndsNumber rest
      → k n rest ≡ r
      → scan_number 64 (32 ∷ (print_unsigned n ++ rest)) k ≡ r
  scan_number_next n rest k b q p =
      ap (λ r. with_number r k) (scan_unsigned_space 64 (print_unsigned n ++ rest))
      ∙ scan_number_first 64 n rest k b b q p

module _ {A : Type 0} where
  read_four_arrays :
      (a b c d : Bytes) (k : Bytes → Bytes → Bytes → Bytes → Option A)
      → read_field (length a) (a ++ (b ++ (c ++ d))) (λ x t.
        read_field
          (length b)
          t
          (λ y t. read_field (length c) t (λ z t. read_field (length d) t (λ w t. k x y z w))))
        ≡ k a b c d
  read_four_arrays a b c d k =
      read_field_then (length a) a (b ++ (c ++ d))
        (λ x t.
          read_field (length b) t
            (λ y t. read_field (length c) t (λ z t. read_field (length d) t (λ w t. k x y z w))))
        refl
        (read_field_then (length b) b (c ++ d)
          (λ y t. read_field (length c) t (λ z t. read_field (length d) t (λ w t. k a y z w))) refl
          (read_field_then (length c) c d (λ z t. read_field (length d) t (λ w t. k a b z w)) refl
            (read_field_last d (λ w t. k a b c w) refl)))

read_password :
    (password : Option Bytes)
    → All (λ c. c ≢ 0) (password_bytes password)
    → (if ltb 0 (length (password_bytes password))
        then some (c_string (password_bytes password))
        else none)
      ≡ kept_password password
read_password none h = refl
read_password (some []) h = refl
read_password (some (c ∷ cs)) h =
    let long : ltb 0 (length (c ∷ cs)) ≡ true = ground arith in
    rw long (ap some (c_string_self (c ∷ cs) h))

read_fields-append :
    (k : ShisaKey)
    → IsStorable k
    → read_fields k.etype
        (length k.key)
        (length k.salt)
        (length k.str2keyparam)
        (length (password_bytes k.password))
        k.priority
        (k.key ++ (k.salt ++ (k.str2keyparam ++ password_bytes k.password)))
      ≡ some (stored k)
unfolding read_fields
read_fields-append k h =
    read_four_arrays k.key k.salt k.str2keyparam (password_bytes k.password)
      (λ key salt str2keyparam password. some record {
        kvno = 0;
        etype = k.etype;
        priority = k.priority;
        key = key;
        salt = salt;
        str2keyparam = str2keyparam;
        password =
            if ltb 0 (length (password_bytes k.password)) then some (c_string password) else none;
      })
    ∙ ap (λ p. some (record (stored k) { password = p })) (read_password k.password h.6)

read_priority-print_unsigned :
    (etype keylen saltlen str2keyparamlen passwdlen priority : ℕ) (rest : Bytes)
    → priority < 2 ^ 32
    → read_priority etype keylen saltlen str2keyparamlen passwdlen
        (32 ∷ (print_unsigned priority ++ (10 ∷ rest)))
      ≡ read_fields etype keylen saltlen str2keyparamlen passwdlen priority rest
unfolding read_priority
read_priority-print_unsigned etype keylen saltlen str2keyparamlen passwdlen priority rest h =
    ap (read_behind_priority etype keylen saltlen str2keyparamlen passwdlen) (
      scan_unsigned_space 32 (print_unsigned priority ++ (10 ∷ rest))
      ∙ scan_unsigned-print_unsigned 32 priority (10 ∷ rest) h (omega arith) refl)

-- What `shisa_file_key_add` writes into the file of a storable key is read by `read_key` as the key
-- without its version number, and without a password of no bytes.
pub read_key-key_text : (k : ShisaKey) → IsStorable k → read_key (key_text k) ≡ some (stored k)
unfolding read_key key_text
read_key-key_text k h = scan_number_first 32 k.etype _ _ h.0 (omega arith) refl (
    scan_number_next (length k.key) _ _ h.2 refl (
      scan_number_next (length k.salt) _ _ h.3 refl (
        scan_number_next (length k.str2keyparam) _ _ h.4 refl (
          scan_number_next (length (password_bytes k.password)) _ _ h.5 refl (
            read_priority-print_unsigned k.etype (length k.key) (length k.salt)
              (length k.str2keyparam) (length (password_bytes k.password)) k.priority _ h.1
            ∙ read_fields-append k h)))))
