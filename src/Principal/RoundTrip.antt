-- ===== src/Principal/RoundTrip.antt =====
-- Names written by shishi_principal_name_realm and read by shishi_parse_name, and the components
-- that a name of shishi_principal_name stands for: lib/principal.c.
use shishi.Base.{
  ℕ, ◌*◌, ◌<◌, Bool, true, false, List, [], ◌∷◌, ◌++◌, some, Bytes, length, All, ◌==◌, ◌≡◌, refl,
  sym, ap, ◌∙◌, append_assoc, append-nil, arith, Bool-cases, inl, inr,
}
use shishi.Outcome.{ok}
use shishi.Principal.{is_special, escape, principal_name, principal_name_realm, parse_name}
use shishi.Principal.ParseName.{
  ends_escaped, up_to, from, from_stop, from_skip, split_parts, parse_name_lem,
}

-- Cutting a string in two at a byte that the first part lacks.
from-append : (at : ℕ) (s t : Bytes) → from at s ≡ [] → from at (s ++ t) ≡ from at t
unfolding from
from-append at [] t h = refl
from-append at (c ∷ cs) t h = elim (Bool-cases (c == at)) [
  | inl q ↦ let s = from_stop at c cs q in cc
  | inr q ↦ from_skip at c (cs ++ t) q ∙ from-append at cs t (sym (from_skip at c cs q) ∙ h)
]

up_to-append : (at : ℕ) (s t : Bytes) → from at s ≡ [] → up_to at (s ++ t) ≡ s ++ up_to at t
unfolding up_to
up_to-append at [] t h = refl
up_to-append at (c ∷ cs) t h = elim (Bool-cases (c == at)) [
  | inl q ↦ let s = from_stop at c cs q in cc
  | inr q ↦ rw (q, up_to) (ap (◌∷◌ c) (up_to-append at cs t (sym (from_skip at c cs q) ∙ h)))
]

from-escape : (s : Bytes) → from b'@' s ≡ [] → from b'@' (escape s) ≡ []
unfolding escape from
from-escape [] h = refl
from-escape (c ∷ cs) h = elim (Bool-cases (c == b'@')) [
  | inl q ↦ let s = from_stop b'@' c cs q in cc
  | inr q ↦
      let IH = from-escape cs (sym (from_skip b'@' c cs q) ∙ h) in
      elim (Bool-cases (is_special c)) [
        | inl r ↦ rw (r, escape, q, from, IH)
        | inr r ↦ rw (r, escape, q, from, IH)
      ]
]

from-principal_name :
    (components : List Bytes)
    → All (λ c. from b'@' c ≡ []) components
    → from b'@' (principal_name components) ≡ []
unfolding principal_name from
from-principal_name [] h = refl
from-principal_name (c ∷ []) h = from-escape c (h.0)
from-principal_name (c ∷ d ∷ ds) h =
    from-append b'@' (escape c) (b'/' ∷ principal_name (d ∷ ds)) (from-escape c (h.0))
    ∙ from_skip b'@' b'/' (principal_name (d ∷ ds)) refl
    ∙ from-principal_name (d ∷ ds) (h.1)

up_to_here : (t : Bytes) → up_to b'@' (b'@' ∷ t) ≡ []
unfolding up_to
up_to_here t = refl

-- A name that `shishi_principal_name_realm` makes of components without an '@', and of a realm that
-- does not end with the escape character, is parsed by `shishi_parse_name` into the components'
-- name and the realm, in at most two turns a byte.
pub parse_name-principal_name_realm :
    (fuel : ℕ) (components : List Bytes) (realm : Bytes)
    → All (λ c. from b'@' c ≡ []) components
    → ends_escaped false realm ≡ false
    → 2 * length (principal_name_realm components (some realm)) < fuel
    → parse_name fuel (some (principal_name_realm components (some realm)))
      ≡ some (ok (principal_name components, some realm))
unfolding principal_name_realm
parse_name-principal_name_realm fuel components realm h e l =
    let name = principal_name components in
    let f = from-principal_name components h in
    let s = from-append b'@' name (b'@' ∷ realm) f ∙ from_stop b'@' b'@' realm refl in
    let u : up_to b'@' (name ++ b'@' ∷ realm) ≡ name =
      up_to-append b'@' name (b'@' ∷ realm) f
      ∙ ap (◌++◌ name) (up_to_here realm)
      ∙ append-nil name in
    parse_name_lem fuel (name ++ b'@' ∷ realm) l
    ∙ ap some (split_parts (name ++ b'@' ∷ realm) realm b'@' s ∙ rw (e, u))

-- The components that a name stands for: an escape character takes the byte behind it as it is,
-- and a slash ends a component.
unfoldable pub decode : Bool → Bytes → Bytes → List Bytes
decode escaped component [] = component ∷ []
decode true component (c ∷ cs) = decode false (component ++ c ∷ []) cs
decode false component (c ∷ cs) = elim (c == b'\\') [
  | true ↦ decode true component cs
  | false ↦ elim (c == b'/') [
    | true ↦ component ∷ decode false [] cs
    | false ↦ decode false (component ++ c ∷ []) cs
  ]
]

pub plain : (c : ℕ) → is_special c ≡ false → (c == b'\\' ≡ false) × (c == b'/' ≡ false)
plain c h = (ground arith, ground arith)

decode-escape :
    (component s t : Bytes)
    → decode false component (escape s ++ t) ≡ decode false (component ++ s) t
unfolding decode escape
decode-escape component [] t = ap (λ x. decode false x t) (sym (append-nil component))
decode-escape component (c ∷ cs) t =
    let IH = decode-escape (component ++ c ∷ []) cs t in
    let a = append_assoc component (c ∷ []) cs in
    elim (Bool-cases (is_special c)) [
      | inl r ↦ rw (r, escape) (IH ∙ ap (λ x. decode false x t) a)
      | inr r ↦
          let p = plain c r in rw (r, escape, p.0, p.1, decode) (IH ∙ ap (λ x. decode false x t) a)
    ]

-- The name that `shishi_principal_name` writes for one component or more stands for exactly those
-- components, whatever bytes they hold.
pub decode-principal_name :
    (component : Bytes) (components : List Bytes)
    → decode false [] (principal_name (component ∷ components)) ≡ component ∷ components
unfolding decode principal_name
decode-principal_name c [] =
    ap (decode false []) (sym (append-nil (escape c))) ∙ decode-escape [] c []
decode-principal_name c (d ∷ ds) =
    decode-escape [] c (b'/' ∷ principal_name (d ∷ ds)) ∙ ap (◌∷◌ c) (decode-principal_name d ds)
