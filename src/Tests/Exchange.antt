-- ===== src/Tests/Exchange.antt =====
-- Asking a KDC for a ticket, and importing a credential cache: runs and instances.
use shishi.Base.{
  ℕ, ◌≡◌, ◌≤◌, ◌⊎◌, refl, Option, Bool, if◌then◌else◌, true, false, [], ◌∷◌, ◌++◌, List, none, some,
  Bytes, arith, inl, length-replicate, replicate,
}
use shishi.Outcome.{ok, got_krberror, not_ok}
use shishi.Tkt.{Tkt, server_p, valid_at_time_p, not_after, not_before, start_or_auth}
use shishi.Hint.{Hint, match_p, asked_flag, asked_valid, asked_etype}
use shishi.Ccache.{Principal, Credential, Cache}
use shishi.Ccache.Parse.RoundTrip.{IsPackable, IsStorable}
use shishi.Ccache.Pack.Layout.{credential_bytes, header_bytes}
use shishi.Ccache.Pack.Whole.{ccache_pack_lem}
use shishi.Cipher.{cipher_keylen}
use shishi.Tkts.Preauth.{Reply, reply, absent, Einfo, recover_preauth_info, settled}
use shishi.Tkts.Preauth.Best.{first, offered, recover_preauth_info_lem}
use shishi.Tkts.Request.{KdcReqCalls}
use shishi.Tkts.Get.{KdcCalls, Settings, no_hint, tkts_get}
use shishi.Tkts.Get.Ends.{tkts_get-ends}
use shishi.Tkts.Get.Keeps.{IsGotten, tkts_get-IsGotten}
use shishi.Tkts.Import.{Importer, Imported, tkts_add_ccache_mem}
use shishi.Tkts.Import.Loop.{IsStuck, tkts_add_ccache_mem-ends}
use shishi.Tkts.Import.RoundTrip.{IsImportable, credentials_bytes, tkts_add_ccache_mem-packed}

abbrev ticket : Tkt
ticket = record {
  client = some (b'a' ∷ []);
  server = some (b'k' ∷ []);
  flags = some 2;
  keytype = some 18;
  startctime = none;
  authctime = some 100;
  endctime = some 500;
}

-- An entry of type 18 behind one of type 17
abbrev entry : ℕ → Einfo
entry etype = record { etype = some etype; salt = absent; s2kparams = absent }

-- The state is whether pre-authentication data has been added: the KDC asks for it first, and then
-- gives the ticket.
abbrev request : KdcReqCalls Bool
request = record {
  write_from = λ time s. (none, s);
  write_till = λ time s. (none, s);
  write_rtime = λ time s. (none, s);
  options_add = λ option s. (none, s);
  set_etype = λ etype s. (none, s);
}

abbrev kdc : KdcCalls Bool
kdc = record {
  preauth = record {
    Key = ℕ;
    clientrealm = λ s. reply (b'a' ∷ []);
    prompt_password = λ user s. (reply (b'p' ∷ []), s);
    derive_default_salt = λ user. reply user;
    key_from_string = λ etype passwd salt s2kparams. reply etype;
    add_padata_preauth = λ key s. (none, true);
  };
  as_begin = λ s. (none, s);
  as_req = request;
  as_req_build = λ s. (none, s);
  as_sendrecv_hint = λ hint s. (none, s);
  as_rep_process = λ passwd s. (if s then none else some got_krberror, s);
  krberror_errorcode = λ s. 25;
  krberror_methoddata = λ s.
      reply
        (record { padatatype = some 19; einfos = some (reply (entry 17 ∷ entry 18 ∷ [])) } ∷ []);
  as_tkt = λ s. some ticket;
  tgs_begin = λ tgt s. (none, s);
  tgs_req = request;
  tgs_set_server = λ server s. (none, s);
  tgs_req_build = λ s. (none, s);
  tgs_sendrecv_hint = λ hint s. (none, s);
  tgs_rep_process = λ s. (some not_ok, s);
  tgs_tkt = λ s. none;
}

abbrev settings : Settings
settings = record {
  noise = false;
  clientkdcetypes = 18 ∷ 17 ∷ [];
  realm_default = b'A' ∷ [];
  now = 200;
  ticketlife = 28800;
  renewlife = 604800;
}

abbrev for_k : Hint
for_k = record no_hint { server = some (b'k' ∷ []) }

tkts_get-ends_example :
    (r : Option Tkt × (List Tkt × Bool)) × (tkts_get kdc settings 2 [] for_k false ≡ some r)
tkts_get-ends_example = tkts_get-ends kdc settings [] for_k false (omega arith, (omega arith, tt))

-- One turn of the exchange is not enough here, two are.
one_turn : tkts_get kdc settings 1 [] for_k false ≡ none
unfolding tkts_get shishi.Tkts.tkts_find shishi.Tkts.Get.tgt_hint
    shishi.Hint.set_tgtflags_based_on_hint shishi.Tkts.Get.as_exchange
    shishi.Tkts.Preauth.do_preauth shishi.Tkts.Preauth.recover_preauth
    shishi.Tkts.Request.act_hint_on_kdcreq shishi.Hint.tgt_tktflags shishi.Hint.set_bit_if
one_turn = refl

two_turns : tkts_get kdc settings 2 [] for_k false ≡ some (some ticket, (ticket ∷ [], true))
unfolding tkts_get shishi.Tkts.tkts_find shishi.Tkts.Get.tgt_hint
    shishi.Hint.set_tgtflags_based_on_hint shishi.Tkts.Get.as_exchange
    shishi.Tkts.Preauth.do_preauth shishi.Tkts.Preauth.recover_preauth match_p server_p asked_valid
    valid_at_time_p not_after start_or_auth not_before asked_flag asked_etype
    shishi.Tkts.Get.tkts_with shishi.Tkts.tkts_add shishi.Tkts.Request.act_hint_on_kdcreq
    shishi.Hint.tgt_tktflags shishi.Hint.set_bit_if
two_turns = refl

tkts_get-IsGotten_example : IsGotten 2 [] (some ticket) (ticket ∷ [])
tkts_get-IsGotten_example =
    tkts_get-IsGotten kdc settings 2 [] for_k false (some ticket, (ticket ∷ [], true)) two_turns

recover_preauth_info_lem_example :
    recover_preauth_info false true (18 ∷ 17 ∷ []) (reply (entry 17 ∷ entry 18 ∷ [])) for_k false
    ≡ (none, (record for_k { preauthetype = 18 }, true))
unfolding first offered
recover_preauth_info_lem_example =
    recover_preauth_info_lem true (18 ∷ 17 ∷ []) (entry 17 ∷ entry 18 ∷ []) for_k false refl

-- A credential of type 17, and one whose key is too short for it
abbrev user : Principal
user = record { name_type = 1; realm = b'A' ∷ []; components = (b'u' ∷ b's' ∷ []) ∷ [] }

abbrev credential : ℕ → Credential
credential keylen = record {
  client = user;
  server = user;
  key = record { keytype = 17; etype = 0; keyvalue = replicate keylen 7 };
  authtime = 1000;
  starttime = 1000;
  endtime = 2000;
  renew_till = 0;
  is_skey = 0;
  tktflags = 0;
  ticket = 0x61 ∷ 0x80 ∷ [];
  second_ticket = [];
}

abbrev cache : Cache
cache = record {
  file_format_version = 0x0504;
  header = 0 ∷ 1 ∷ [];
  default_principal = user;
  credentials = [];
}

-- Every ticket is decoded, and makes the same new ticket.
abbrev importer : Importer
importer = record {
  Ticket = Bytes;
  der2asn1_ticket = λ bytes. some bytes;
  new_tkt = λ cred t. ok ticket;
}

user-IsPackable : IsPackable user
user-IsPackable = record {
  name_type_fits = omega arith;
  few = omega arith;
  realm_fits = omega arith;
  short = omega arith;
}

credential-IsStorable : (keylen : ℕ) → keylen ≤ 16 → IsStorable (credential keylen)
credential-IsStorable keylen h = record {
  client = user-IsPackable;
  server = user-IsPackable;
  server_type = omega arith;
  keytype = omega arith;
  etype = (omega arith, inl (omega arith));
  keylen = (
    omega (arith, length-replicate {A = ℕ} keylen 7),
    inl (omega (arith, length-replicate {A = ℕ} keylen 7)),
  );
  times = omega arith;
  tktflags = omega arith;
  ticket = omega arith;
  second_ticket = omega arith;
}

abbrev pair : Credential × Tkt
pair = (credential 16, ticket)

pair-IsImportable : IsImportable importer (credential 16) ticket
unfolding cipher_keylen
pair-IsImportable = record {
  storable = credential-IsStorable 16 (omega arith);
  keylen = refl;
  ticket = 0x61 ∷ 0x80 ∷ [];
  decoded = refl;
  made = refl;
}

tkts_add_ccache_mem-packed_example :
    tkts_add_ccache_mem importer 3
      (header_bytes cache [] ++ credentials_bytes (credential 16 ∷ credential 16 ∷ []))
      (ticket ∷ [])
    ≡ some (ok tt, ticket ∷ ticket ∷ ticket ∷ [])
tkts_add_ccache_mem-packed_example =
    tkts_add_ccache_mem-packed importer cache 100 25 (header_bytes cache []) (pair ∷ pair ∷ [])
      (ticket ∷ []) user-IsPackable (omega arith, inl (omega arith))
      (omega arith, inl (omega arith)) (unfold credentials_bytes in omega arith)
      (ccache_pack_lem cache 100 (omega arith)) (pair-IsImportable, (pair-IsImportable, tt))

abbrev short_bytes : Bytes
short_bytes = header_bytes cache [] ++ (credential_bytes (credential 2) [] ++ 0 ∷ 7 ∷ [])

tkts_add_ccache_mem-ends_example :
    (((r : Imported) × (tkts_add_ccache_mem importer 200 short_bytes [] ≡ some r))
      ⊎ IsStuck importer short_bytes)
    × (IsStuck importer short_bytes
        → (f : ℕ) → tkts_add_ccache_mem importer f short_bytes [] ≡ none)
tkts_add_ccache_mem-ends_example =
    tkts_add_ccache_mem-ends importer short_bytes [] 200 (omega arith)
