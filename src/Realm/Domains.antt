-- ===== src/Realm/Domains.antt =====
-- Which realm a host has by the DNS: for its name or for a domain that it lies in.
use shishi.Base.{
  ℕ, Bool, true, false, List, [], ◌∷◌, ◌++◌, Option, none, some, Bytes, codes, ◌==◌, if◌then◌else◌,
  ◌≡◌, ◌⊎◌, inl, inr, refl, sym, ap, ◌∙◌, arith, All,
}
use shishi.Realm.{
  Realms, Rr, realm_for_server_file, domains, first_answer, text_of, realm_for_server_dns,
  realm_for_server,
}

-- The names that the DNS is asked for: the host's, and the domains that it lies in
abbrev pub IsDomainOf : Bytes → Bytes → Type 0
IsDomainOf server name = (name ≡ server) ⊎ ((host : Bytes) × (server ≡ host ++ b'.' ∷ name))

-- An answer of the DNS that names the realm
pub record IsAnswered (resolv : Bytes → Option Rr) (server realm : Bytes) : Type 0 where
  pub name : Bytes
  pub rrs : Rr
  pub is_domain : IsDomainOf server name
  pub is_answer : resolv (codes "_kerberos." ++ name) ≡ some rrs
  pub is_text : text_of (some rrs) ≡ some realm

-- The same names, of a longer one
later :
    (c : ℕ) (p : Bytes) (ps : List Bytes)
    → All (λ q. (host : Bytes) × (p ≡ host ++ b'.' ∷ q)) ps
    → All (λ q. (host : Bytes) × (c ∷ p ≡ host ++ b'.' ∷ q)) ps
later c p [] h = tt
later c p (q ∷ ps) ((host, e), hs) = ((c ∷ host, ap (◌∷◌ c) e), later c p ps hs)

domains_lem :
    (server : Bytes) → All (λ p. (host : Bytes) × (server ≡ host ++ b'.' ∷ p)) (domains server)
unfolding domains
domains_lem [] = tt
domains_lem (c ∷ []) = tt
domains_lem (c ∷ d ∷ p) =
    go (c == b'.') refl (later c (d ∷ p) (domains (d ∷ p)) (domains_lem (d ∷ p)))
  where
    go :
        (b : Bool)
        → (c == b'.') ≡ b
        → All (λ q. (host : Bytes) × (c ∷ d ∷ p ≡ host ++ b'.' ∷ q)) (domains (d ∷ p))
        → All
            (λ q. (host : Bytes) × (c ∷ d ∷ p ≡ host ++ b'.' ∷ q))
            (if b then (d ∷ p) ∷ domains (d ∷ p) else domains (d ∷ p))
    go true e h = (([], ap (λ a. a ∷ d ∷ p) {x = c} {y = b'.'} (ground (arith, e))), h)
    go false e h = h

first_answer-asked :
    (resolv : Bytes → Option Rr) (P : Bytes → Type 0) (ps : List Bytes) (rrs : Rr)
    → All P ps
    → first_answer resolv ps ≡ some rrs
    → (name : Bytes) × P name × (resolv (codes "_kerberos." ++ name) ≡ some rrs)
unfolding first_answer
first_answer-asked resolv P [] rrs h e = absurd cc
first_answer-asked resolv P (p ∷ ps) rrs (h, hs) e =
    go (resolv (codes "_kerberos." ++ p)) refl (first_answer-asked resolv P ps rrs hs) e
  where
    go :
        (o : Option Rr)
        → resolv (codes "_kerberos." ++ p) ≡ o
        → (first_answer resolv ps ≡ some rrs
            → (name : Bytes) × P name × (resolv (codes "_kerberos." ++ name) ≡ some rrs))
        → (elim o [ none ↦ first_answer resolv ps | some r ↦ some r ]) ≡ some rrs
        → (name : Bytes) × P name × (resolv (codes "_kerberos." ++ name) ≡ some rrs)
    go none q rest e = rest e
    go (some r) q rest e = (p, h, q ∙ e)

-- Where shishi_realm_for_server gives a realm that the configuration does not, the DNS has answered
-- with a text record for the host's name, or for a domain that the host lies in.
pub realm_for_server-IsAnswered :
    (resolv : Bytes → Option Rr) (realms : Realms) (server realm : Bytes)
    → realm_for_server_file realms.realminfos server ≡ none
    → realm_for_server resolv realms server ≡ some realm
    → IsAnswered resolv server realm
unfolding realm_for_server realm_for_server_dns
realm_for_server-IsAnswered resolv realms server realm n e =
    go (first_answer resolv (server ∷ domains server)) refl (sym (ap file_or_dns n) ∙ e)
  where
    file_or_dns : Option Bytes → Option Bytes
    file_or_dns none = text_of (first_answer resolv (server ∷ domains server))
    file_or_dns (some r) = some r

    weaken :
        (ps : List Bytes)
        → All (λ p. (host : Bytes) × (server ≡ host ++ b'.' ∷ p)) ps
        → All (IsDomainOf server) ps
    weaken [] h = tt
    weaken (p ∷ ps) (h, hs) = (inr h, weaken ps hs)

    asked : All (IsDomainOf server) (server ∷ domains server)
    asked = (inl refl, weaken (domains server) (domains_lem server))

    go :
        (o : Option Rr)
        → first_answer resolv (server ∷ domains server) ≡ o
        → text_of o ≡ some realm
        → IsAnswered resolv server realm
    go none q t = absurd cc
    go (some rrs) q t =
        let (name, d, a) =
          first_answer-asked resolv (IsDomainOf server) (server ∷ domains server) rrs asked q in
        record { name = name; rrs = rrs; is_domain = d; is_answer = a; is_text = t }
