-- ===== src/Tests/Hosts.antt =====
-- A configuration of two realms and a DNS that knows a third: runs of Realm.
use shishi.Base.{
  [], ◌∷◌, List, Option, none, some, Bytes, codes, str_equal, if◌then◌else◌, ◌≡◌, refl,
}
use shishi.Realm.{
  RealmInfo, Realms, Rr, is_domain_part, wildcard_match, any_wildcard, realm_for_server_file,
  domains, first_answer, realm_for_server_dns, realm_for_server, realm_default, realm_default_guess,
}
use shishi.Realm.Wildcards.{RealmOf, realm_for_server_file-RealmOf}
use shishi.Realm.Domains.{IsAnswered, realm_for_server-IsAnswered}

abbrev infos : List RealmInfo
infos =
    record { name = codes "A"; serverwildcards = codes "a.org" ∷ [] }
    ∷ record { name = codes "B"; serverwildcards = codes "b" ∷ codes ".org" ∷ [] }
    ∷ []

abbrev realms : Realms
realms = record { default_realm = none; realminfos = infos }

abbrev resolv : Bytes → Option Rr
resolv name =
    if str_equal name (codes "_kerberos.c.net")
    then some (record { class = 1; type = 16; rr = codes "C" })
    else none

guessed :
    realm_default (realm_default_guess (some (codes "(none)")) (some (codes "h"))) realms
    ≡ (codes "h", record realms { default_realm = some (codes "h") })
unfolding realm_default realm_default_guess
guessed = refl

realm_for_server_file-RealmOf_example : RealmOf (codes "x.a.org") infos (some (codes "B"))
unfolding realm_for_server_file any_wildcard wildcard_match is_domain_part
realm_for_server_file-RealmOf_example = realm_for_server_file-RealmOf infos (codes "x.a.org")

not_configured : realm_for_server_file infos (codes "h.c.net") ≡ none
unfolding realm_for_server_file any_wildcard wildcard_match is_domain_part
not_configured = refl

in_dns : realm_for_server resolv realms (codes "h.c.net") ≡ some (codes "C")
unfolding realm_for_server realm_for_server_file any_wildcard wildcard_match is_domain_part
    realm_for_server_dns domains first_answer
in_dns = refl

realm_for_server-IsAnswered_example : IsAnswered resolv (codes "h.c.net") (codes "C")
realm_for_server-IsAnswered_example =
    realm_for_server-IsAnswered resolv realms (codes "h.c.net") (codes "C") not_configured in_dns
