-- ===== src/Kdc/Select.antt =====
-- The choice of the user's key and of the session key's type in asreq1 of src/kdc.c.
pub mod Choice
pub mod First
use shishi.Base.{
  ℕ, ◌-◌, ◌^◌, Bool, true, false, List, [], ◌∷◌, Option, none, some, if◌then◌else◌, ◌==◌, ◌≡◌, ◌⊎◌,
  refl, sym, ap, ap₂, ◌∙◌, arith, Bool-cases, All, ◌++◌, ◌&&◌, ◌||◌, inl, inr,
}
use mathlib.Core.Path.{subst}
use shishi.Cipher.{cipher_supported_p, find_cipher, ciphers}
use shishi.Cipher.Etype
use shishi.Shisa.Key.{ShisaKey}

-- The loop over the keys of a principal: the last one of the type, else the one from before
unfoldable pub last_match : ℕ → List ShisaKey → Option ShisaKey → Option ShisaKey
last_match etype [] found = found
last_match etype (key ∷ keys) found =
    last_match etype keys (if key.etype == etype then some key else found)

-- `sessionkeytype == -1`
abbrev pub no_type : ℕ
no_type = 2 ^ 32 - 1

-- The loop over the server's keys
unfoldable pub type_match : ℕ → List ShisaKey → ℕ → ℕ
type_match etype [] found = found
type_match etype (key ∷ keys) found =
    type_match etype keys (if key.etype == etype then key.etype else found)

abbrev pub or_last_match : ℕ → List ShisaKey → Option ShisaKey → Option ShisaKey
or_last_match etype keys none = last_match etype keys none
or_last_match etype keys (some key) = some key

-- The loop over the types that the client accepts
unfoldable pub select :
    List ShisaKey → List ShisaKey → List ℕ → ℕ × Option ShisaKey → ℕ × Option ShisaKey
unfolding last_match type_match
select serverkeys userkeys [] found = found
select serverkeys userkeys (etype ∷ etypes) (sessionkeytype, userdbkey) =
    let next : ℕ × Option ShisaKey = (
      (if sessionkeytype == no_type
          then type_match etype serverkeys sessionkeytype
          else sessionkeytype),
      or_last_match etype userkeys userdbkey,
    ) in
    select serverkeys userkeys etypes
      (if cipher_supported_p etype then next else (sessionkeytype, userdbkey))

-- shishi_cfg_clientkdcetype_fast
abbrev pub clientkdcetype_fast : List ℕ → ℕ
clientkdcetype_fast [] = Etype.aes256_cts_hmac_sha1_96
clientkdcetype_fast (etype ∷ etypes) = etype

-- The type of the session key behind the loop
abbrev pub or_default : List ℕ → ℕ → ℕ
or_default clientkdcetypes sessionkeytype =
    if sessionkeytype == no_type then clientkdcetype_fast clientkdcetypes else sessionkeytype
