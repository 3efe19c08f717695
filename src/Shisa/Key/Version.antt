-- ===== src/Shisa/Key/Version.antt =====
-- What read_key of db/file.c sets a key's version number to.
use shishi.Base.{
  ℕ, Option, none, some, [], ◌∷◌, Bytes, if◌then◌else◌, ◌==◌, leb, ltb, length, take, drop, ◌≡◌,
  refl, Bool-cases, inl, inr,
}
use shishi.Shisa.Number.{scan_unsigned}
use shishi.Shisa.Key.{
  ShisaKey, c_string, with_number, read_field, read_fields, read_behind_priority, read_priority,
  read_key,
}

-- The version number of a key is not read from its file.
abbrev pub HasNoVersion : Option ShisaKey → Type 0
HasNoVersion none = Unit
HasNoVersion (some key) = key.kvno ≡ 0

read_field-HasNoVersion :
    (n : ℕ) (text : Bytes) (k : Bytes → Bytes → Option ShisaKey)
    → ((field rest : Bytes) → HasNoVersion (k field rest))
    → HasNoVersion (read_field n text k)
read_field-HasNoVersion n text k h = elim (Bool-cases (leb n (length text))) [
  | inl e ↦ rw e (h (take n text) (drop n text))
  | inr e ↦ rw e tt
]

with_number-HasNoVersion :
    (r : Option ℕ × Bytes) (k : ℕ → Bytes → Option ShisaKey)
    → ((n : ℕ) (rest : Bytes) → HasNoVersion (k n rest))
    → HasNoVersion (with_number r k)
with_number-HasNoVersion (none, rest) k h = tt
with_number-HasNoVersion (some n, rest) k h = h n rest

read_fields-HasNoVersion :
    (etype keylen saltlen str2keyparamlen passwdlen priority : ℕ) (text : Bytes)
    → HasNoVersion (read_fields etype keylen saltlen str2keyparamlen passwdlen priority text)
unfolding read_fields
read_fields-HasNoVersion etype keylen saltlen str2keyparamlen passwdlen priority text =
    read_field-HasNoVersion keylen text _ (λ key t. read_field-HasNoVersion saltlen t _ (λ salt t.
      read_field-HasNoVersion str2keyparamlen t _ (λ str2keyparam t.
        read_field-HasNoVersion passwdlen t
          (λ password t. some record {
            kvno = 0;
            etype = etype;
            priority = priority;
            key = key;
            salt = salt;
            str2keyparam = str2keyparam;
            password = if ltb 0 passwdlen then some (c_string password) else none;
          })
          (λ password t. refl {A = ℕ} {a = 0}))))

read_behind_priority-HasNoVersion :
    (etype keylen saltlen str2keyparamlen passwdlen : ℕ) (r : Option ℕ × Bytes)
    → HasNoVersion (read_behind_priority etype keylen saltlen str2keyparamlen passwdlen r)
read_behind_priority-HasNoVersion etype keylen saltlen str2keyparamlen passwdlen (none, rest) =
    read_fields-HasNoVersion etype keylen saltlen str2keyparamlen passwdlen 0 rest
read_behind_priority-HasNoVersion etype keylen saltlen str2keyparamlen passwdlen (some n, []) = tt
read_behind_priority-HasNoVersion etype keylen saltlen str2keyparamlen passwdlen
      (some n, c ∷ rest) =
    elim (Bool-cases (c == 10)) [
      | inl e ↦
          rw e (read_fields-HasNoVersion etype keylen saltlen str2keyparamlen passwdlen n rest)
      | inr e ↦ rw e tt
    ]

pub read_key-HasNoVersion : (text : Bytes) → HasNoVersion (read_key text)
unfolding read_key read_priority
read_key-HasNoVersion text = with_number-HasNoVersion (scan_unsigned 32 text) _ (λ etype t.
    with_number-HasNoVersion (scan_unsigned 64 t) _ (λ keylen t.
      with_number-HasNoVersion (scan_unsigned 64 t) _ (λ saltlen t.
        with_number-HasNoVersion (scan_unsigned 64 t) _ (λ str2keyparamlen t.
          with_number-HasNoVersion (scan_unsigned 64 t) _ (λ passwdlen t.
            read_behind_priority-HasNoVersion etype keylen saltlen str2keyparamlen passwdlen
              (scan_unsigned 32 t))))))
