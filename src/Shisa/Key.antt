-- ===== src/Shisa/Key.antt =====
-- The keys of the user database: struct Shisa_key of db/shisa.h, and read_key, key_match and the
-- text that shisa_file_key_add writes, of db/file.c.  An array and its length are one list.  What
-- the model leaves out: xmalloc when memory is short.

pub mod RoundTrip
pub mod Version
use shishi.Base.{
  ℕ, ◌≤◌, Bool, true, false, ◌&&◌, Option, none, some, [], ◌∷◌, ◌++◌, Bytes, length, take, drop,
  leb, ltb, ◌==◌, if◌then◌else◌, str_equal,
}
use shishi.Shisa.Number.{print_unsigned, scan_unsigned}

-- A 32-bit etype and priority stand as the words that fprintf and fscanf take them for.
pub record ShisaKey : Type 0 where
  pub kvno : ℕ
  pub etype : ℕ
  pub priority : ℕ
  pub key : Bytes
  pub salt : Bytes
  pub str2keyparam : Bytes
  pub password : Option Bytes

-- The bytes of a string before its NUL
abbrev pub c_string : Bytes → Bytes
c_string [] = []
c_string (c ∷ cs) = elim (c == 0) [ true ↦ [] | false ↦ c ∷ c_string cs ]

-- `key->password ? strlen (key->password) : 0`, and the bytes
abbrev pub password_bytes : Option Bytes → Bytes
password_bytes none = []
password_bytes (some password) = password

-- What shisa_file_key_add writes into a key's file
unfoldable pub key_text : ShisaKey → Bytes
key_text k =
    print_unsigned k.etype
    ++ (32
        ∷ (print_unsigned (length k.key)
            ++ (32
                ∷ (print_unsigned (length k.salt)
                    ++ (32
                        ∷ (print_unsigned (length k.str2keyparam)
                            ++ (32
                                ∷ (print_unsigned (length (password_bytes k.password))
                                    ++ (32
                                        ∷ (print_unsigned k.priority
                                            ++ (10
                                                ∷ (k.key
                                                    ++ (k.salt
                                                        ++ (k.str2keyparam
                                                            ++ password_bytes
                                                            k.password))))))))))))))

-- What follows a number of the format: none where fscanf stops
abbrev pub with_number {ℓ} : {A : Type ℓ} → Option ℕ × Bytes → (ℕ → Bytes → Option A) → Option A
with_number (none, rest) k = none
with_number (some n, rest) k = k n rest

abbrev pub scan_number {ℓ} : {A : Type ℓ} (width : ℕ) → Bytes → (ℕ → Bytes → Option A) → Option A
scan_number width text k = with_number (scan_unsigned width text) k

-- `fread (p, 1, n, fh) != n` gives up.
abbrev pub read_field {ℓ} : {A : Type ℓ} (n : ℕ) → Bytes → (Bytes → Bytes → Option A) → Option A
read_field n text k = if leb n (length text) then k (take n text) (drop n text) else none

-- The arrays behind the first line; a password is a string.
unfoldable pub read_fields :
    (etype keylen saltlen str2keyparamlen passwdlen priority : ℕ) → Bytes → Option ShisaKey
read_fields etype keylen saltlen str2keyparamlen passwdlen priority text =
    read_field keylen text (λ key t. read_field saltlen t (λ salt t.
      read_field str2keyparamlen t (λ str2keyparam t. read_field passwdlen t (λ password t.
        some record {
          kvno = 0;
          etype = etype;
          priority = priority;
          key = key;
          salt = salt;
          str2keyparam = str2keyparam;
          password = if ltb 0 passwdlen then some (c_string password) else none;
        }))))

-- What is read behind the sixth number, before which fscanf skips spaces: a newline, if the number
-- is there, and the arrays
abbrev pub read_behind_priority :
    (etype keylen saltlen str2keyparamlen passwdlen : ℕ) → Option ℕ × Bytes → Option ShisaKey
read_behind_priority etype keylen saltlen str2keyparamlen passwdlen (none, rest) =
    read_fields etype keylen saltlen str2keyparamlen passwdlen 0 rest
read_behind_priority etype keylen saltlen str2keyparamlen passwdlen (some priority, []) = none
read_behind_priority etype keylen saltlen str2keyparamlen passwdlen (some priority, junk ∷ rest) =
    if junk == 10
    then read_fields etype keylen saltlen str2keyparamlen passwdlen priority rest
    else none

unfoldable pub read_priority :
    (etype keylen saltlen str2keyparamlen passwdlen : ℕ) → Bytes → Option ShisaKey
read_priority etype keylen saltlen str2keyparamlen passwdlen text =
    read_behind_priority etype keylen saltlen str2keyparamlen passwdlen (scan_unsigned 32 text)

-- The contents of a key's file; none stands for SHISA_NO_KEY.
unfoldable pub read_key : Bytes → Option ShisaKey
read_key text = scan_number 32 text (λ etype t. scan_number 64 t (λ keylen t.
    scan_number 64 t (λ saltlen t. scan_number 64 t (λ str2keyparamlen t.
      scan_number 64 t
        (λ passwdlen t. read_priority etype keylen saltlen str2keyparamlen passwdlen t)))))

-- A field of the hint that is given has to be the key's.
abbrev pub number_match : (hint value : ℕ) → Bool
number_match hint value = if hint == 0 then true else hint == value

abbrev pub array_match : (hint value : Bytes) → Bool
array_match hint value =
    if length hint == 0 then true else (length hint == length value) && str_equal hint value

-- Passwords are compared if all else matches; none stands for strcmp called with a key that has no password.
unfoldable pub password_match : Bool → (hint value : Option Bytes) → Option Bool
password_match ok none value = some ok
password_match false (some hint) value = some false
password_match true (some hint) none = none
password_match true (some hint) (some value) = some (str_equal hint value)

unfoldable pub key_match : (hint key : ShisaKey) → Option Bool
key_match hint key =
    password_match
      (number_match hint.kvno key.kvno
        && number_match hint.etype key.etype
        && array_match hint.key key.key
        && array_match hint.salt key.salt
        && array_match hint.str2keyparam key.str2keyparam)
      hint.password key.password
