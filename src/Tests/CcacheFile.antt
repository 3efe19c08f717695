-- ===== src/Tests/CcacheFile.antt =====
-- Runs and instances for the credential cache.
use shishi.Base.{◌≤◌, ◌≡◌, ◌↔◌, [], ◌∷◌, ◌++◌, Bytes, length, arith, inl}
use shishi.Outcome.{ok, overrun}
use shishi.Ccache.{Principal, Credential, Cache, Buffer}
use shishi.Ccache.Parse.{parse_principal, parse_credential, ccache_parse_credential, ccache_parse}
use shishi.Ccache.Parse.RoundTrip.{IsStorable}
use shishi.Ccache.Parse.WholeRoundTrip.{ccache_parse_credential-pack, ccache_parse-pack}
use shishi.Ccache.Parse.Bounds.{ccache_parse_credential_bounds}
use shishi.Ccache.Parse.Overrun.{EndsAtRealm, parse_principal-overrun_iff}
use shishi.Ccache.Pack.{ccache_pack_credential}
use shishi.Ccache.Pack.Layout.{credential_bytes, header_bytes}
use shishi.Ccache.Pack.Whole.{ccache_pack_lem, ccache_pack_credential_lem}

-- user@A
abbrev user : Principal
user = record { name_type = 1; realm = b'A' ∷ []; components = (b'u' ∷ b's' ∷ []) ∷ [] }

-- krbtgt/A@A
abbrev krbtgt : Principal
krbtgt = record { name_type = 2; realm = b'A' ∷ []; components = (b'k' ∷ []) ∷ (b'A' ∷ []) ∷ [] }

abbrev credential : Credential
credential = record {
  client = user;
  server = krbtgt;
  key = record { keytype = 17; etype = 0; keyvalue = 200 ∷ 201 ∷ [] };
  authtime = 1000;
  starttime = 1000;
  endtime = 2000;
  renew_till = 0;
  is_skey = 1;
  tktflags = 0x40e00000;
  ticket = 0x61 ∷ 0x80 ∷ [];
  second_ticket = [];
}

abbrev cache : Cache
cache = record {
  file_format_version = 0;
  header = 0 ∷ 1 ∷ [];
  default_principal = user;
  credentials = [];
}

credential-IsStorable : IsStorable credential
credential-IsStorable = record {
  client = record {
    name_type_fits = omega arith;
    few = omega arith;
    realm_fits = omega arith;
    short = omega arith;
  };
  server = record {
    name_type_fits = omega arith;
    few = omega arith;
    realm_fits = omega arith;
    short = omega arith;
  };
  server_type = omega arith;
  keytype = omega arith;
  etype = (omega arith, inl (omega arith));
  keylen = (omega arith, inl (omega arith));
  times = omega arith;
  tktflags = omega arith;
  ticket = omega arith;
  second_ticket = omega arith;
}

ccache_pack_credential_lem_example :
    ccache_pack_credential credential 89 ≡ ok (credential_bytes credential [], 89)
ccache_pack_credential_lem_example = ccache_pack_credential_lem credential 89 (omega arith)

abbrev room_100 : Buffer
room_100 = record { out = []; room = 100 }

ccache_parse_credential-pack_example :
    ccache_parse_credential (credential_bytes credential [] ++ (0 ∷ 7 ∷ []))
    ≡ ok (record credential { is_skey = 0 }, 89)
ccache_parse_credential-pack_example =
    ccache_parse_credential-pack credential 100 89 (credential_bytes credential []) (0 ∷ 7 ∷ [])
      credential-IsStorable (ccache_pack_credential_lem credential 100 (omega arith))

ccache_parse-pack_example :
    ccache_parse (header_bytes cache [] ++ (0 ∷ 9 ∷ []))
    ≡ ok (record cache { file_format_version = 0x0504; credentials = 0 ∷ 9 ∷ [] })
ccache_parse-pack_example =
    ccache_parse-pack cache 100 25 (header_bytes cache []) (0 ∷ 9 ∷ [])
      (record {
        name_type_fits = omega arith;
        few = omega arith;
        realm_fits = omega arith;
        short = omega arith;
      })
      (omega arith, inl (omega arith)) (omega arith, inl (omega arith)) (omega arith)
      (ccache_pack_lem cache 100 (omega arith))

ccache_parse_credential_bounds_example :
    (67 ≤ 89)
    × (89 ≤ length (credential_bytes credential [] ++ (0 ∷ 7 ∷ [])))
    × (parse_credential (credential_bytes credential [] ++ (0 ∷ 7 ∷ []))
        ≡ ok (record credential { is_skey = 0 }, 0 ∷ 7 ∷ []))
ccache_parse_credential_bounds_example =
    ccache_parse_credential_bounds (credential_bytes credential [] ++ (0 ∷ 7 ∷ []))
      (record credential { is_skey = 0 }) 89 ccache_parse_credential-pack_example

-- name type 1, one component, a realm of one byte that ends the buffer
abbrev cut_short : Bytes
cut_short = 0 ∷ 0 ∷ 0 ∷ 1 ∷ 0 ∷ 0 ∷ 0 ∷ 1 ∷ 0 ∷ 0 ∷ 0 ∷ 1 ∷ b'A' ∷ []

parse_principal-overrun_iff_example : (parse_principal cut_short ≡ overrun) ↔ EndsAtRealm cut_short
parse_principal-overrun_iff_example = parse_principal-overrun_iff cut_short
