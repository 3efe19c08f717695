-- ===== src/Ccache/Parse.antt =====
-- Reading a credential cache: parse_principal, skip_address, skip_authdata, parse_credential,
-- ccache_parse and ccache_parse_credential of lib/ccache.c.
pub mod RoundTrip
pub mod WholeRoundTrip
pub mod Bounds
pub mod Shortens
pub mod Overrun
use shishi.Base.{ℕ, zero, suc, ◌-◌, List, [], ◌∷◌, Bytes, length, leb, if◌then◌else◌}
use shishi.Outcome.{Outcome, ok, failed, overrun, minus_one, pure, fail, ◌>>=◌, ◌>>◌}
use shishi.Ccache.{
  Principal, Credential, Cache, max_components, Reader, get_uint8, get_uint16, get_uint32,
  get_uint32_swapped, get_data, check_zero, check_zero_if_any,
}

-- the loop over `components[n]`
pub parse_components : ℕ → Reader (List Bytes)
parse_components zero = pure []
parse_components (suc n) = do
  component_length ← get_uint32
  component ← get_data component_length
  check_zero_if_any
  components ← parse_components n
  pure (component ∷ components)

pub parse_principal : Reader Principal
parse_principal = do
  name_type ← get_uint32
  num_components ← get_uint32
  if leb max_components num_components then fail minus_one else do
    realm_length ← get_uint32
    realm ← get_data realm_length
    check_zero
    components ← parse_components num_components
    pure (record { name_type = name_type; realm = realm; components = components })

pub skip_address : Reader (Unit {0})
skip_address = do addrtype ← get_uint16; addrlen ← get_uint32; address ← get_data addrlen; pure tt

pub skip_authdata : Reader (Unit {0})
skip_authdata = do
  authdatatype ← get_uint16
  authdatalen ← get_uint32
  authdata ← get_data authdatalen
  pure tt

-- `for (; n; n--) …`
pub skip_each : Reader (Unit {0}) → ℕ → Reader (Unit {0})
skip_each skip zero = pure tt
skip_each skip (suc n) = do skip; skip_each skip n

-- from the key on
pub parse_credential_body : Principal → Principal → Reader Credential
parse_credential_body client server = do
  keytype ← get_uint16
  etype ← get_uint16
  keylen ← get_uint16
  keyvalue ← get_data keylen
  authtime ← get_uint32
  starttime ← get_uint32
  endtime ← get_uint32
  renew_till ← get_uint32
  is_skey ← get_uint8
  tktflags ← get_uint32_swapped
  num_address ← get_uint32
  skip_each skip_address num_address
  num_authdata ← get_uint32
  skip_each skip_authdata num_authdata
  ticket_length ← get_uint32
  ticket ← get_data ticket_length
  second_ticket_length ← get_uint32
  second_ticket ← get_data second_ticket_length
  pure (record {
    client = client;
    server = server;
    key = record { keytype = keytype; etype = etype; keyvalue = keyvalue };
    authtime = authtime;
    starttime = starttime;
    endtime = endtime;
    renew_till = renew_till;
    is_skey = is_skey;
    tktflags = tktflags;
    ticket = ticket;
    second_ticket = second_ticket;
  })

pub parse_credential : Reader Credential
parse_credential = do
  client ← parse_principal
  check_zero_if_any
  server ← parse_principal
  check_zero_if_any
  parse_credential_body client server

pub parsed_credential : Bytes → Outcome (Credential × Bytes) → Outcome (Credential × ℕ)
parsed_credential bytes (ok (credential, rest)) = ok (credential, length bytes - length rest)
parsed_credential bytes (failed rc) = failed rc
parsed_credential bytes overrun = overrun

-- The credential and `*n`, the number of bytes that it takes up.
pub ccache_parse_credential : Bytes → Outcome (Credential × ℕ)
ccache_parse_credential bytes = parsed_credential bytes (parse_credential bytes)

pub parse_header : Reader (ℕ × Bytes × Principal)
parse_header = do
  file_format_version ← get_uint16
  headerlen ← get_uint16
  header ← get_data headerlen
  default_principal ← parse_principal
  pure (file_format_version, header, default_principal)

pub parsed_cache : Outcome ((ℕ × Bytes × Principal) × Bytes) → Outcome Cache
parsed_cache (ok ((file_format_version, header, default_principal), rest)) = ok (record {
  file_format_version = file_format_version;
  header = header;
  default_principal = default_principal;
  credentials = rest;
})
parsed_cache (failed rc) = failed rc
parsed_cache overrun = overrun

pub ccache_parse : Bytes → Outcome Cache
ccache_parse bytes = parsed_cache (parse_header bytes)
