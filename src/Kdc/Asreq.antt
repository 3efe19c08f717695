-- ===== src/Kdc/Asreq.antt =====
-- The processing of an AS-REQ: asreq1 of src/kdc.c.
pub mod Chosen
pub mod Issued
use shishi.Base.{
  ℕ, Bool, true, false, ◌&&◌, List, [], ◌∷◌, Option, none, some, Bytes, length, ◌==◌, if◌then◌else◌,
}
use shishi.Outcome.{Outcome}
use shishi.Key.{Key}
use shishi.Shisa.Key.{ShisaKey}
use shishi.Kdc.Steps.{Flow, go_on, fatal, Run, pure, lift, stop, flow_of, ◌>>=◌, ◌>>◌}
use shishi.Kdc.Select.{select, no_type, or_default}
use shishi.Kdc.{
  have_tkt, dbkey, Exchange, Server, Write, endtime_set, flags_add, key_set, clientrealm_set,
  serverrealm_set, tkt_build, rep_build, put, try_put, refuse, find_principal, find_keys,
}

-- What the ASN.1 library reads of an AS-REQ. The types are those that shishi_kdcreq_etype gives until
-- it fails; `till` comes with its length; the flags are the KDC options.
pub record AsReq : Type 0 where
  pub realm : Outcome Bytes
  pub client : Outcome Bytes
  pub server : Outcome Bytes
  pub etypes : List ℕ
  pub till : Outcome (Bytes × ℕ)
  pub forwardable : Bool
  pub allow_postdate : Bool
  pub postdated : Bool
  pub proxiable : Bool
  pub renewable : Bool

-- The names of a request and the keys of both principals, the first one apart
pub record Parties : Type 0 where
  pub realm : Bytes
  pub username : Bytes
  pub servername : Bytes
  pub userkeys : ShisaKey × List ShisaKey
  pub serverkeys : ShisaKey × List ShisaKey

pub record Keys : Type 0 where
  pub userkey : Key
  pub serverkey : Key
  pub sessionkey : Key

abbrev pub all_keys : ShisaKey × List ShisaKey → List ShisaKey
all_keys keys = keys.0 ∷ keys.1

-- SHISHI_KEYUSAGE_ENCASREPPART
abbrev pub encasreppart : ℕ
encasreppart = 3

module _ {S : Type 0} (sv : Server S) (req : AsReq) where
  -- KDC_ERR_C_PRINCIPAL_UNKNOWN is 6, KDC_ERR_S_PRINCIPAL_UNKNOWN 7.
  unfoldable pub asreq_parties : S → Run Exchange Parties
  asreq_parties s = do
    realm ← lift (flow_of req.realm)
    username ← lift (flow_of req.client)
    servername ← lift (flow_of req.server)
    find_principal sv s 6 realm username
    userkeys ← find_keys sv s realm username
    find_principal sv s 7 realm servername
    serverkeys ← find_keys sv s realm servername
    pure record {
      realm = realm;
      username = username;
      servername = servername;
      userkeys = userkeys;
      serverkeys = serverkeys;
    }

  -- `userdbkey == NULL`: KDC_ERR_ETYPE_NOSUPP is 14.
  abbrev pub key_or_refuse : Option ShisaKey → Run Exchange ShisaKey
  key_or_refuse none = refuse sv 14
  key_or_refuse (some key) = pure key

  unfoldable pub asreq_keys : Parties → Run Exchange Keys
  unfolding select
  asreq_keys p =
      let chosen =
        select (all_keys p.serverkeys) (all_keys p.userkeys) req.etypes (no_type, none) in
      do
        userdbkey ← key_or_refuse (chosen.1)
        userkey ← lift (flow_of (dbkey userdbkey))
        serverkey ← lift (flow_of (dbkey (p.serverkeys.0)))
        sessionkey ← lift (flow_of (sv.key_random (or_default sv.clientkdcetypes (chosen.0))))
        pure record { userkey = userkey; serverkey = serverkey; sessionkey = sessionkey }

  abbrev pub is_till : Bytes × ℕ → Bool
  is_till (till, tilllen) = (tilllen == 16) && (length till == 15)

  -- A `till` that is no time goes to `fatal` with SHISHI_OK.
  abbrev pub set_till : Bytes × ℕ → Run Exchange (Unit {0})
  set_till till = if is_till till then try_put sv (endtime_set (till.0)) else stop none

  abbrev pub add_if : Bool → ℕ → Run Exchange (Unit {0})
  add_if true flag = try_put sv (flags_add flag)
  add_if false flag = pure tt

  -- FORWARDABLE, MAY-POSTDATE, POSTDATED and INVALID, PROXIABLE and RENEWABLE
  unfoldable pub asreq_flags : Run Exchange (Unit {0})
  asreq_flags = do
    add_if req.forwardable 0x2
    add_if req.allow_postdate 0x20
    add_if req.postdated 0x40
    add_if req.postdated 0x80
    add_if req.proxiable 0x8
    add_if req.renewable 0x100

  unfoldable pub asreq_reply : Parties → Keys → Run Exchange (Unit {0})
  asreq_reply p k = do
    put sv (key_set k.sessionkey)
    put sv (clientrealm_set p.realm p.username)
    put sv (serverrealm_set p.realm p.servername)
    put sv (tkt_build k.serverkey)
    put sv (rep_build encasreppart k.userkey)

  unfoldable pub asreq1 : S → Run Exchange (Unit {0})
  unfolding asreq_parties asreq_keys asreq_flags asreq_reply
  asreq1 s = do
    p ← asreq_parties s
    k ← asreq_keys p
    have_tkt
    till ← lift (flow_of req.till)
    set_till till
    asreq_flags
    asreq_reply p k
