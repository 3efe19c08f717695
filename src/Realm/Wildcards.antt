-- ===== src/Realm/Wildcards.antt =====
-- Which realm a host has by the patterns of the configuration.
use shishi.Base.{
  Bool, true, false, ◌&&◌, ◌||◌, List, [], ◌∷◌, ◌++◌, Option, none, some, Bytes, str_equal,
  str_equal_self, eq_of_str_equal, ◌==◌, if◌then◌else◌, ◌≡◌, ◌⊎◌, inl, inr, refl, sym, ap, ◌∙◌,
  arith, Bool-cases,
}
use shishi.Realm.{
  RealmInfo, is_domain_part, is_tail_pattern, wildcard_match, any_wildcard, realm_for_server_file,
}

-- A pattern is for a host that it names, or, if it begins with a dot, for the hosts that end with it.
abbrev pub Matches : Bytes → Bytes → Type 0
Matches server wildcard =
    (server ≡ wildcard)
    ⊎ ((host : Bytes) × (tail : Bytes) × (wildcard ≡ b'.' ∷ tail) × (server ≡ host ++ wildcard))

abbrev pub MatchesOne : Bytes → List Bytes → Type 0
MatchesOne server [] = ⊥
MatchesOne server (wildcard ∷ wildcards) = Matches server wildcard ⊎ MatchesOne server wildcards

-- The first realm of the configuration that has a pattern for the host
pub data RealmOf (server : Bytes) : List RealmInfo → Option Bytes → Type 0 where
  unknown : RealmOf server [] none
  known :
      (ri : RealmInfo) (ris : List RealmInfo)
      → MatchesOne server ri.serverwildcards
      → RealmOf server (ri ∷ ris) (some ri.name)
  other :
      (ri : RealmInfo) (ris : List RealmInfo) (o : Option Bytes)
      → ¬ MatchesOne server ri.serverwildcards
      → RealmOf server ris o
      → RealmOf server (ri ∷ ris) o

or_right : (a : Bool) {b : Bool} → b ≡ true → (a || b) ≡ true
or_right true q = refl
or_right false q = q

or_left : {a : Bool} (b : Bool) → a ≡ true → (a || b) ≡ true
or_left b q = ap (λ a. a || b) q

or_cases : (a b : Bool) → (a || b) ≡ true → (a ≡ true) ⊎ (b ≡ true)
or_cases true b h = inl refl
or_cases false b h = inr h

is_domain_part_sound :
    (wildcard p : Bytes)
    → is_domain_part wildcard p ≡ true
    → (host : Bytes) × (p ≡ host ++ wildcard)
unfolding is_domain_part
is_domain_part_sound wildcard [] h = absurd cc
is_domain_part_sound wildcard (c ∷ p) h = elim (Bool-cases (is_domain_part wildcard p)) [
  | inl e ↦ let (host, q) = is_domain_part_sound wildcard p e in (c ∷ host, ap (◌∷◌ c) q)
  | inr e ↦ (
    [],
    eq_of_str_equal (c ∷ p) wildcard (
        here (c == b'.') (str_equal (c ∷ p) wildcard)
          (sym (ap (λ b. ((c == b'.') && str_equal (c ∷ p) wildcard) || b) e) ∙ h)),
  )
]
  where
    here : (a b : Bool) → ((a && b) || false) ≡ true → b ≡ true
    here true true q = refl
    here true false q = q
    here false b q = absurd cc

is_domain_part_complete :
    (host tail : Bytes) → is_domain_part (b'.' ∷ tail) (host ++ b'.' ∷ tail) ≡ true
unfolding is_domain_part
is_domain_part_complete [] tail =
    ap (λ b. b || is_domain_part (b'.' ∷ tail) tail) (str_equal_self tail)
is_domain_part_complete (c ∷ host) tail =
    or_right ((c == b'.') && str_equal (c ∷ (host ++ b'.' ∷ tail)) (b'.' ∷ tail))
      (is_domain_part_complete host tail)

wildcard_match_sound :
    (server wildcard : Bytes) → wildcard_match server wildcard ≡ true → Matches server wildcard
unfolding wildcard_match
wildcard_match_sound server wildcard h = elim (Bool-cases (str_equal server wildcard)) [
  | inl e ↦ inl (eq_of_str_equal server wildcard e)
  | inr e ↦ inr (
      by_pattern wildcard
        (sym (ap (λ b. b || (is_tail_pattern wildcard && is_domain_part wildcard server)) e) ∙ h))
]
  where
    by_pattern :
        (w : Bytes)
        → (is_tail_pattern w && is_domain_part w server) ≡ true
        → (host : Bytes) × (tail : Bytes) × (w ≡ b'.' ∷ tail) × (server ≡ host ++ w)
    by_pattern [] q = absurd cc
    by_pattern (c ∷ tail) q = elim (Bool-cases (c == b'.')) [
      | inl e ↦
          let (host, s) =
            is_domain_part_sound (c ∷ tail) server
              (sym (ap (λ b. b && is_domain_part (c ∷ tail) server) e) ∙ q) in
          (host, tail, ap (λ d. d ∷ tail) {x = c} {y = b'.'} (ground (arith, e)), s)
      | inr e ↦
          let no : false ≡ true = sym (ap (λ b. b && is_domain_part (c ∷ tail) server) e) ∙ q in
          absurd cc
    ]

wildcard_match_complete :
    (server wildcard : Bytes) → Matches server wildcard → wildcard_match server wildcard ≡ true
unfolding wildcard_match
wildcard_match_complete server wildcard (inl e) =
    ap (λ b. b || (is_tail_pattern wildcard && is_domain_part wildcard server))
      (ap (str_equal server) (sym e) ∙ str_equal_self server)
wildcard_match_complete server wildcard (inr (host, tail, w, s)) =
    rw (s, w, is_domain_part_complete host tail)
      (or_right (str_equal (host ++ b'.' ∷ tail) (b'.' ∷ tail)) refl)

any_wildcard_sound :
    (server : Bytes) (wildcards : List Bytes)
    → any_wildcard server wildcards ≡ true
    → MatchesOne server wildcards
unfolding any_wildcard
any_wildcard_sound server [] h = absurd cc
any_wildcard_sound server (wildcard ∷ wildcards) h =
    elim (or_cases (wildcard_match server wildcard) (any_wildcard server wildcards) h) [
      | inl e ↦ inl (wildcard_match_sound server wildcard e)
      | inr e ↦ inr (any_wildcard_sound server wildcards e)
    ]

any_wildcard_complete :
    (server : Bytes) (wildcards : List Bytes)
    → MatchesOne server wildcards
    → any_wildcard server wildcards ≡ true
unfolding any_wildcard
any_wildcard_complete server [] m = absurd m
any_wildcard_complete server (wildcard ∷ wildcards) (inl m) =
    or_left (any_wildcard server wildcards) (wildcard_match_complete server wildcard m)
any_wildcard_complete server (wildcard ∷ wildcards) (inr m) =
    or_right (wildcard_match server wildcard) (any_wildcard_complete server wildcards m)

-- shishi_realm_for_server_file gives the first realm of the configuration that has a pattern for the
-- host: its name, or an end of it that begins with a dot; NULL if there is none.
pub realm_for_server_file-RealmOf :
    (ris : List RealmInfo) (server : Bytes) → RealmOf server ris (realm_for_server_file ris server)
unfolding realm_for_server_file
realm_for_server_file-RealmOf [] server = unknown
realm_for_server_file-RealmOf (ri ∷ ris) server =
    go (any_wildcard server ri.serverwildcards) refl (realm_for_server_file-RealmOf ris server)
  where
    go :
        (b : Bool)
        → any_wildcard server ri.serverwildcards ≡ b
        → RealmOf server ris (realm_for_server_file ris server)
        → RealmOf server (ri ∷ ris) (if b then some ri.name else realm_for_server_file ris server)
    go true e r = known ri ris (any_wildcard_sound server ri.serverwildcards e)
    go false e r =
        other ri ris _
          (λ m.
            let no : false ≡ true = sym e ∙ any_wildcard_complete server ri.serverwildcards m in
            absurd cc)
          r
