-- ===== src/Ccache/Parse/WholeRoundTrip.antt =====
-- From `ccache_pack` and `ccache_pack_credential` back through `ccache_parse` and
-- `ccache_parse_credential`.
use shishi.Base.{
  drop, drop-append_self, sym, ℕ, ◌-◌, ◌≡◌, refl, ◌∙◌, ap, [], ◌++◌, Bytes, append_assoc, length,
  length-append, arith,
}
use shishi.Outcome.{ok, then_ok}
use shishi.Wire.{IsPlain16, be16}
use shishi.Ccache.{Credential, Cache, get_uint16, get_data}
use shishi.Ccache.Parse.{
  parsed_credential, parsed_cache, parse_principal, ccache_parse_credential, parse_header,
  ccache_parse,
}
use shishi.Ccache.Parse.RoundTrip.{
  IsPackable, IsStorable, Terminates, get_uint16-be16, get_data-append, parse_principal_lem,
  parse_credential_lem,
}
use shishi.Ccache.Pack.{version_or_default, ccache_pack, ccache_pack_credential}
use shishi.Ccache.Pack.Layout.{
  principal_bytes, principal_bytes-append, credential_body_bytes, credential_bytes, header_bytes,
}
use shishi.Ccache.Pack.Whole.{ccache_pack-eq-ok, ccache_pack_credential-eq-ok}

credential_body_bytes-append :
    (c : Credential) (rest : Bytes)
    → credential_body_bytes c [] ++ rest ≡ credential_body_bytes c rest
credential_body_bytes-append c rest = simp append_assoc

pub credential_bytes-append :
    (c : Credential) (rest : Bytes) → credential_bytes c [] ++ rest ≡ credential_bytes c rest
credential_bytes-append c rest =
    principal_bytes-append c.client _ rest
    ∙ ap (principal_bytes c.client) (
        principal_bytes-append c.server _ rest
        ∙ ap (principal_bytes c.server) (credential_body_bytes-append c rest))

header_bytes-append :
    (info : Cache) (rest : Bytes) → header_bytes info [] ++ rest ≡ header_bytes info rest
header_bytes-append info rest =
    ap (λ x. be16 (version_or_default info.file_format_version) (be16 (length info.header) x))
      (append_assoc info.header _ rest
        ∙ ap (◌++◌ info.header) (principal_bytes-append info.default_principal [] rest))

-- A storable credential that `ccache_pack_credential` has packed is parsed back by
-- `ccache_parse_credential`, whatever bytes follow it, with the length that the packing returned;
-- only `is_skey` is lost, and reads 0.
pub ccache_parse_credential-pack :
    (c : Credential) (room n : ℕ) (packed_bytes rest : Bytes)
    → IsStorable c
    → ccache_pack_credential c room ≡ ok (packed_bytes, n)
    → ccache_parse_credential (packed_bytes ++ rest) ≡ ok (record c { is_skey = 0 }, n)
unfolding ccache_parse_credential parsed_credential
ccache_parse_credential-pack c room n packed_bytes rest h e =
    let (bytes_eq, n_eq) =
      ccache_pack_credential-eq-ok c room n packed_bytes (h.client.few, h.server.few) e in
    rw (bytes_eq, credential_bytes-append)
      (ap (parsed_credential (credential_bytes c rest)) (parse_credential_lem c rest h)
        ∙ ap (λ k. ok (record c { is_skey = 0 }, k)) (consumed n_eq))
  where
    consumed :
        n ≡ length (credential_bytes c []) → length (credential_bytes c rest) - length rest ≡ n
    consumed q = omega (
      arith,
      length-append (credential_bytes c []) rest,
      ap (length {0}) (credential_bytes-append c rest),
    )

-- A cache header that `ccache_pack` has packed is parsed back by `ccache_parse`: the bytes behind
-- it are the credentials, and a format version of 0 comes back as 0x0504. The conditions: the
-- version and the header's length fit 16 bits and survive the reading through signed characters,
-- which they do with a low byte below 0x80 or a high byte of 0xFF; the principal has less than 5
-- components, each shorter than 2^24 bytes, and its name type and its realm's length fit 32 bits;
-- and a zero byte follows it, or nothing where it has components.
pub ccache_parse-pack :
    (info : Cache) (room n : ℕ) (packed_bytes rest : Bytes)
    → IsPackable info.default_principal
    → IsPlain16 (version_or_default info.file_format_version)
    → IsPlain16 (length info.header)
    → Terminates info.default_principal.components rest
    → ccache_pack info room ≡ ok (packed_bytes, n)
    → ccache_parse (packed_bytes ++ rest)
      ≡ ok (record info {
        file_format_version = version_or_default info.file_format_version;
        credentials = rest;
      })
unfolding ccache_parse parsed_cache parse_header
ccache_parse-pack info room n packed_bytes rest p v l t e =
    rw (ccache_pack-eq-ok info room n packed_bytes p.few e, header_bytes-append)
      (ap parsed_cache (
        then_ok get_uint16 _ (get_uint16-be16 (version_or_default info.file_format_version) _ v) (
          then_ok get_uint16 _ (get_uint16-be16 (length info.header) _ l) (
            then_ok (get_data _) _ (get_data-append info.header _) (
              then_ok parse_principal _ (parse_principal_lem info.default_principal rest p t)
                refl)))))

-- A packed credential is taken off the front.
pub ccache_parse_credential_taken :
    (c : Credential) (rest : Bytes)
    → IsStorable c
    → (n : ℕ) × (ccache_parse_credential (credential_bytes c rest)
        ≡ ok (record c { is_skey = 0 }, n))
      × (drop n (credential_bytes c rest) ≡ rest)
unfolding ccache_parse_credential parsed_credential
ccache_parse_credential_taken c rest h =
    let bytes = credential_bytes c rest in
    let front = credential_bytes c [] in
    let split : front ++ rest ≡ bytes = credential_bytes-append c rest in
    let size : length front ≡ length bytes - length rest =
      omega (arith, ap (length {0}) split, length-append front rest) in
    (
      length bytes - length rest,
      ap (parsed_credential bytes) (parse_credential_lem c rest h),
      ap (drop (length bytes - length rest)) (sym split)
          ∙ drop-append_self (length bytes - length rest) front rest size,
    )
