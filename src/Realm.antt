-- ===== src/Realm.antt =====
-- The default realm, and the realm of a host: lib/realm.c. The names of the host and the answers of the
-- DNS are parameters. Warnings are left out.
pub mod Wildcards
pub mod Domains
use shishi.Base.{
  ℕ, Bool, true, false, ◌&&◌, ◌||◌, not, List, [], ◌∷◌, ◌++◌, Option, none, some, Bytes, codes,
  str_equal, ◌==◌, if◌then◌else◌,
}

-- struct Shishi_realminfo, and what the handle keeps of realms
pub record RealmInfo : Type 0 where
  pub name : Bytes
  pub serverwildcards : List Bytes

pub record Realms : Type 0 where
  pub default_realm : Option Bytes
  pub realminfos : List RealmInfo

-- `realm && strlen (realm) > 0 && strcmp (realm, "(none)") != 0`
abbrev pub names_realm : Option Bytes → Bool
names_realm none = false
names_realm (some []) = false
names_realm (some (c ∷ realm)) = not (str_equal (c ∷ realm) (codes "(none)"))

abbrev pub or_hostname : Bool → Option Bytes → Bytes → Bytes
or_hostname true (some realm) other = realm
or_hostname _ _ other = other

-- shishi_realm_default_guess, by what xgetdomainname and xgethostname give
unfoldable pub realm_default_guess : Option Bytes → Option Bytes → Bytes
realm_default_guess domain host =
    or_hostname (names_realm domain) domain
      (or_hostname (names_realm host) host (codes "could-not-guess-default-realm"))

abbrev pub realm_default_set : Realms → Option Bytes → Realms
realm_default_set realms realm = record realms { default_realm = realm }

-- shishi_realm_default, which keeps a guess
unfoldable pub realm_default : Bytes → Realms → Bytes × Realms
realm_default guess realms = elim realms.default_realm [
  | none ↦ (guess, realm_default_set realms (some guess))
  | some realm ↦ (realm, realms)
]

-- The loop over the dots of the server's name
unfoldable pub is_domain_part : Bytes → Bytes → Bool
is_domain_part wildcard [] = false
is_domain_part wildcard (c ∷ p) =
    ((c == b'.') && str_equal (c ∷ p) wildcard) || is_domain_part wildcard p

-- `*(ri->serverwildcards[j]) == '.'`
abbrev pub is_tail_pattern : Bytes → Bool
is_tail_pattern [] = false
is_tail_pattern (c ∷ wildcard) = c == b'.'

unfoldable pub wildcard_match : Bytes → Bytes → Bool
unfolding is_domain_part
wildcard_match server wildcard =
    str_equal server wildcard || (is_tail_pattern wildcard && is_domain_part wildcard server)

unfoldable pub any_wildcard : Bytes → List Bytes → Bool
unfolding wildcard_match
any_wildcard server [] = false
any_wildcard server (wildcard ∷ wildcards) =
    wildcard_match server wildcard || any_wildcard server wildcards

unfoldable pub realm_for_server_file : List RealmInfo → Bytes → Option Bytes
unfolding any_wildcard
realm_for_server_file [] server = none
realm_for_server_file (ri ∷ ris) server =
    if any_wildcard server ri.serverwildcards
    then some ri.name
    else realm_for_server_file ris server

-- struct Shishi_dns_st, the first one of an answer
pub record Rr : Type 0 where
  pub class : ℕ
  pub type : ℕ
  pub rr : Bytes

abbrev pub dns_in : ℕ
dns_in = 1

abbrev pub dns_txt : ℕ
dns_txt = 16

-- The names behind the dots, each of which is asked for while there is no answer; an empty one ends
-- the loop.
unfoldable pub domains : Bytes → List Bytes
domains [] = []
domains (c ∷ []) = []
domains (c ∷ d ∷ p) = if c == b'.' then (d ∷ p) ∷ domains (d ∷ p) else domains (d ∷ p)

unfoldable pub first_answer : (Bytes → Option Rr) → List Bytes → Option Rr
first_answer resolv [] = none
first_answer resolv (p ∷ ps) =
    let rest = first_answer resolv ps in
    elim (resolv (codes "_kerberos." ++ p)) [ none ↦ rest | some rrs ↦ some rrs ]

abbrev pub text_of : Option Rr → Option Bytes
text_of none = none
text_of (some rrs) = if (rrs.class == dns_in) && (rrs.type == dns_txt) then some rrs.rr else none

unfoldable pub realm_for_server_dns : (Bytes → Option Rr) → Bytes → Option Bytes
unfolding domains first_answer
realm_for_server_dns resolv server = text_of (first_answer resolv (server ∷ domains server))

unfoldable pub realm_for_server : (Bytes → Option Rr) → Realms → Bytes → Option Bytes
unfolding realm_for_server_file realm_for_server_dns
realm_for_server resolv realms server = elim (realm_for_server_file realms.realminfos server) [
  | none ↦ realm_for_server_dns resolv server
  | some realm ↦ some realm
]
