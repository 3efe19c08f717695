-- ===== src/Principal/Salt.antt =====
-- The salt that shishi_derive_default_salt of lib/principal.c derives from a name.
use shishi.Base.{
  ℕ, ◌*◌, ◌<◌, false, List, [], ◌∷◌, ◌++◌, some, Bytes, length, All, ◌==◌, ◌≡◌, refl, sym, ap, ◌∙◌,
  append-nil, arith,
}
use shishi.Outcome.{ok}
use shishi.Principal.{
  is_special, escape, principal_name, principal_name_realm, without_slashes, default_salt,
  derive_default_salt,
}
use shishi.Principal.ParseName.{ends_escaped, from}
use shishi.Principal.RoundTrip.{plain, parse_name-principal_name_realm}

-- The components one behind the other.
unfoldable pub concatenated : List Bytes → Bytes
concatenated [] = []
concatenated (c ∷ cs) = c ++ concatenated cs

-- Bytes without '@', '/' and '\\'.
abbrev pub IsPlain : Bytes → Type 0
IsPlain c = All (λ b. is_special b ≡ false) c

from-plain : (s : Bytes) → IsPlain s → from b'@' s ≡ []
unfolding from
from-plain [] h = refl
from-plain (c ∷ cs) h =
    let e : c == b'@' ≡ false = not_at c (h.0) in rw (e, from, from-plain cs (h.1))
  where
    not_at : (c : ℕ) → is_special c ≡ false → c == b'@' ≡ false
    not_at c h = ground arith

escape-plain : (s : Bytes) → IsPlain s → escape s ≡ s
unfolding escape
escape-plain [] h = refl
escape-plain (c ∷ cs) h = rw (h.0, escape, escape-plain cs (h.1))

without_slashes-append :
    (s t : Bytes) → IsPlain s → without_slashes (s ++ t) ≡ s ++ without_slashes t
unfolding without_slashes
without_slashes-append [] t h = refl
without_slashes-append (c ∷ cs) t h =
    let p = plain c (h.0) in
    rw (p.1, without_slashes) (ap (◌∷◌ c) (without_slashes-append cs t (h.1)))

without_slashes-principal_name :
    (components : List Bytes)
    → All IsPlain components
    → without_slashes (principal_name components) ≡ concatenated components
unfolding principal_name concatenated without_slashes
without_slashes-principal_name [] h = refl
without_slashes-principal_name (c ∷ []) h =
    ap without_slashes (escape-plain c (h.0) ∙ sym (append-nil c))
    ∙ without_slashes-append c [] (h.0)
without_slashes-principal_name (c ∷ d ∷ ds) h =
    let rest = b'/' ∷ principal_name (d ∷ ds) in
    ap (λ s. without_slashes (s ++ rest)) (escape-plain c (h.0))
    ∙ without_slashes-append c rest (h.0)
    ∙ ap (◌++◌ c) (without_slashes-principal_name (d ∷ ds) (h.1))

All-from :
    (components : List Bytes) → All IsPlain components → All (λ c. from b'@' c ≡ []) components
All-from [] h = h
All-from (c ∷ cs) h = (from-plain c (h.0), All-from cs (h.1))

-- For components without '@', '/' and the escape character, and a realm that does not end with it,
-- the salt that `shishi_derive_default_salt` derives from the name in text form is the realm and
-- then the components, with nothing between them.
pub derive_default_salt_lem :
    (fuel : ℕ) (components : List Bytes) (realm : Bytes)
    → All IsPlain components
    → ends_escaped false realm ≡ false
    → 2 * length (principal_name_realm components (some realm)) < fuel
    → derive_default_salt fuel (some (principal_name_realm components (some realm)))
      ≡ some (ok (realm ++ concatenated components))
unfolding derive_default_salt default_salt
derive_default_salt_lem fuel components realm h e l =
    ap default_salt
      (parse_name-principal_name_realm fuel components realm (All-from components h) e l)
    ∙ ap (λ s. some (ok (realm ++ s))) (without_slashes-principal_name components h)
