-- ===== src/Ccache/Parse/RoundTrip.antt =====
-- Parsing what was packed: the readers of lib/ccache.c on the bytes of its writers.
use shishi.Base.{
  ℕ, ◌≤◌, ◌<◌, ◌≡◌, refl, ◌∙◌, ap, List, [], ◌∷◌, ◌++◌, Bytes, All, length, length-append, drop,
  take-append_self, drop-append_self, arith, le→ltb_false, lt→leb_false, inl, ◌↔◌, ◌⊎◌, ◌%◌,
}
use shishi.Outcome.{Outcome, ok, then_ok}
use shishi.Wire.{
  be16, be32, le32, IsUint16, IsUint32, IsPlain16, char16_eq, char16_iff, masked32_eq,
}
use shishi.Ccache.{
  Principal, Credential, max_components, get_uint8, get_uint16, get_uint32, get_uint32_swapped,
  get_data, check_zero, check_zero_if_any,
}
use shishi.Ccache.Parse.{
  parse_components, parse_principal, skip_each, parse_credential_body, parse_credential,
}
use shishi.Ccache.Pack.Layout.{
  components_bytes, principal_bytes, credential_body_bytes, credential_bytes,
}

pub get_uint16-be16 : (i : ℕ) (rest : Bytes) → IsPlain16 i → get_uint16 (be16 i rest) ≡ ok (i, rest)
unfolding get_uint16
get_uint16-be16 i rest h = ap (λ v. ok (v, rest)) (char16_eq i h)

get_uint32-be32 : (i : ℕ) (rest : Bytes) → IsUint32 i → get_uint32 (be32 i rest) ≡ ok (i, rest)
unfolding get_uint32
get_uint32-be32 i rest h = ap (λ v. ok (v, rest)) (masked32_eq i h)

get_uint32_swapped-le32 :
    (i : ℕ) (rest : Bytes) → IsUint32 i → get_uint32_swapped (le32 i rest) ≡ ok (i, rest)
unfolding get_uint32_swapped
get_uint32_swapped-le32 i rest h = ap (λ v. ok (v, rest)) (masked32_eq i h)

pub get_data-append : (d rest : Bytes) → get_data (length d) (d ++ rest) ≡ ok (d, rest)
unfolding get_data
get_data-append d rest =
    rw (le→ltb_false (length (d ++ rest)) (length d) (omega (arith, length-append d rest))) (
      ap (λ x. ok (x, drop (length d) (d ++ rest))) (take-append_self (length d) d rest refl)
      ∙ ap (λ x. ok (d, x)) (drop-append_self (length d) d rest refl))

-- The next byte is a zero; or there is none.
abbrev pub StartsWithZero : Bytes → Type 0
StartsWithZero [] = ⊥
StartsWithZero (b ∷ rest) = b ≡ 0

abbrev pub EndsOrZero : Bytes → Type 0
EndsOrZero [] = Unit
EndsOrZero (b ∷ rest) = b ≡ 0

check_zero_lem : (s : Bytes) → StartsWithZero s → check_zero s ≡ ok (tt, s)
unfolding check_zero
check_zero_lem [] h = absurd h
check_zero_lem (b ∷ rest) h = ground arith

check_zero_if_any_lem : (s : Bytes) → EndsOrZero s → check_zero_if_any s ≡ ok (tt, s)
unfolding check_zero_if_any
check_zero_if_any_lem [] h = refl
check_zero_if_any_lem (b ∷ rest) h = ground arith

-- A length with a zero in its top byte.
abbrev pub IsShort : Bytes → Type 0
IsShort c = length c < 0x1000000

EndsOrZero-components_bytes :
    (cs : List Bytes) (rest : Bytes)
    → All IsShort cs
    → EndsOrZero rest
    → EndsOrZero (components_bytes cs rest)
EndsOrZero-components_bytes [] rest h e = e
EndsOrZero-components_bytes (c ∷ cs) rest h e = omega arith

parse_components_lem :
    (cs : List Bytes) (rest : Bytes)
    → All IsShort cs
    → EndsOrZero rest
    → parse_components (length cs) (components_bytes cs rest) ≡ ok (cs, rest)
unfolding parse_components
parse_components_lem [] rest h e = refl
parse_components_lem (c ∷ cs) rest h e =
    then_ok get_uint32 _ (get_uint32-be32 (length c) _ (omega arith)) (
      then_ok (get_data (length c)) _ (get_data-append c _) (
        then_ok check_zero_if_any _
          (check_zero_if_any_lem _ (EndsOrZero-components_bytes cs rest h.1 e))
          (then_ok (parse_components (length cs)) _ (parse_components_lem cs rest h.1 e) refl)))

-- What a principal must satisfy to survive the file format: the parser refuses 5 components, and
-- a component is short since the first byte of its length terminates what stands before it.
pub record IsPackable (p : Principal) : Type 0 where
  pub name_type_fits : IsUint32 p.name_type
  pub few : length p.components < max_components
  pub realm_fits : IsUint32 (length p.realm)
  pub short : All IsShort p.components

-- What may follow a principal: a zero, or nothing if there are components.
abbrev pub Terminates : List Bytes → Bytes → Type 0
Terminates [] rest = StartsWithZero rest
Terminates (_ ∷ _) rest = EndsOrZero rest

StartsWithZero-components_bytes :
    (cs : List Bytes) (rest : Bytes)
    → All IsShort cs
    → Terminates cs rest
    → StartsWithZero (components_bytes cs rest) × EndsOrZero rest
StartsWithZero-components_bytes [] [] h e = absurd e
StartsWithZero-components_bytes [] (b ∷ rest) h e = (e, e)
StartsWithZero-components_bytes (c ∷ cs) rest h e = (omega arith, e)

pub parse_principal_lem :
    (p : Principal) (rest : Bytes)
    → IsPackable p
    → Terminates p.components rest
    → parse_principal (principal_bytes p rest) ≡ ok (p, rest)
unfolding parse_principal
parse_principal_lem p rest h e =
    let (starts, ends) = StartsWithZero-components_bytes p.components rest h.short e in
    then_ok get_uint32 _ (get_uint32-be32 p.name_type _ h.name_type_fits) (
      then_ok get_uint32 _ (get_uint32-be32 (length p.components) _ (let k = h.few in omega arith))
        (rw (lt→leb_false max_components (length p.components) h.few) (
          then_ok get_uint32 _ (get_uint32-be32 (length p.realm) _ h.realm_fits) (
            then_ok (get_data (length p.realm)) _ (get_data-append p.realm _) (
              then_ok check_zero _ (check_zero_lem _ starts) (
                then_ok (parse_components (length p.components)) _
                  (parse_components_lem p.components rest h.short ends) refl))))))

-- What a credential must satisfy to survive the file format. The bytes that follow the names
-- terminate them, and the 16-bit fields are read through signed characters.
pub record IsStorable (c : Credential) : Type 0 where
  pub client : IsPackable c.client
  pub server : IsPackable c.server
  pub server_type : c.server.name_type < 0x1000000
  pub keytype : c.key.keytype < 0x80
  pub etype : IsPlain16 c.key.etype
  pub keylen : IsPlain16 (length c.key.keyvalue)
  pub times :
      IsUint32 c.authtime × IsUint32 c.starttime × IsUint32 c.endtime × IsUint32 c.renew_till
  pub tktflags : IsUint32 c.tktflags
  pub ticket : IsUint32 (length c.ticket)
  pub second_ticket : IsUint32 (length c.second_ticket)

Terminates-zero : (cs : List Bytes) (s : Bytes) → StartsWithZero s → EndsOrZero s × Terminates cs s
Terminates-zero cs [] h = absurd h
Terminates-zero [] (b ∷ s) h = (h, h)
Terminates-zero (c ∷ cs) (b ∷ s) h = (h, h)

parse_credential_body_lem :
    (c : Credential) (rest : Bytes)
    → IsStorable c
    → parse_credential_body c.client c.server (credential_body_bytes c rest)
      ≡ ok (record c { is_skey = 0 }, rest)
unfolding parse_credential_body get_uint8 skip_each
parse_credential_body_lem c rest h =
    then_ok get_uint16 _
      (get_uint16-be16 c.key.keytype _ (let k = h.keytype in (omega arith, inl (omega arith))))
      (then_ok get_uint16 _ (get_uint16-be16 c.key.etype _ h.etype) (
        then_ok get_uint16 _ (get_uint16-be16 (length c.key.keyvalue) _ h.keylen) (
          then_ok (get_data _) _ (get_data-append c.key.keyvalue _) (
            then_ok get_uint32 _ (get_uint32-be32 c.authtime _ h.times.0) (
              then_ok get_uint32 _ (get_uint32-be32 c.starttime _ h.times.1) (
                then_ok get_uint32 _ (get_uint32-be32 c.endtime _ h.times.2) (
                  then_ok get_uint32 _ (get_uint32-be32 c.renew_till _ h.times.3) (
                    then_ok get_uint32_swapped _ (get_uint32_swapped-le32 c.tktflags _ h.tktflags) (
                      then_ok get_uint32 _ (get_uint32-be32 0 _ (omega arith)) (
                        then_ok get_uint32 _ (get_uint32-be32 0 _ (omega arith)) (
                          then_ok get_uint32 _ (get_uint32-be32 (length c.ticket) _ h.ticket) (
                            then_ok (get_data _) _ (get_data-append c.ticket _) (
                              then_ok get_uint32 _
                                (get_uint32-be32 (length c.second_ticket) _ h.second_ticket)
                                (then_ok (get_data _) _ (get_data-append c.second_ticket _)
                                  refl))))))))))))))

pub parse_credential_lem :
    (c : Credential) (rest : Bytes)
    → IsStorable c
    → parse_credential (credential_bytes c rest) ≡ ok (record c { is_skey = 0 }, rest)
unfolding parse_credential
parse_credential_lem c rest h =
    let body : Bytes = credential_body_bytes c rest in
    let (body_ends, body_follows) =
      Terminates-zero c.server.components body (let k = h.keytype in omega arith) in
    let (server_ends, server_follows) =
      Terminates-zero c.client.components (principal_bytes c.server body)
        (let k = h.server_type in omega arith) in
    then_ok parse_principal _ (parse_principal_lem c.client _ h.client server_follows) (
      then_ok check_zero_if_any _ (check_zero_if_any_lem _ server_ends) (
        then_ok parse_principal _ (parse_principal_lem c.server _ h.server body_follows) (
          then_ok check_zero_if_any _ (check_zero_if_any_lem _ body_ends)
            (parse_credential_body_lem c rest h))))

ok-pair : (i j : ℕ) (s : Bytes) → ◌≡◌ {A = Outcome (ℕ × Bytes)} (ok (i, s)) (ok (j, s)) → i ≡ j
ok-pair i j s e = cc

-- `get_uint16` reads back what `put_uint16` stores of a uint16_t exactly when the low byte is below
-- 0x80 or the high byte is 0xFF: in every other case the signed low byte overwrites the high one.
pub get_uint16_iff :
    (i : ℕ) (rest : Bytes)
    → IsUint16 i
    → (get_uint16 (be16 i rest) ≡ ok (i, rest)) ↔ ((i % 0x100 < 0x80) ⊎ (0xFF00 ≤ i))
unfolding get_uint16
get_uint16_iff i rest u = (
  (λ e. (char16_iff i u).0 (ok-pair _ i rest e)),
  λ h. ap (λ v. ok (v, rest)) ((char16_iff i u).1 h),
)
