-- ===== src/Kdc/Tgsreq.antt =====
-- The processing of a TGS-REQ: tgsreq1 of src/kdc.c.
pub mod Found
pub mod Issued
use shishi.Base.{ℕ, List, Option, none, some, Bytes}
use shishi.Outcome.{Outcome}
use shishi.Key.{Key}
use shishi.Shisa.Key.{ShisaKey}
use shishi.Kdc.Steps.{Run, pure, lift, flow_of, ◌>>=◌, ◌>>◌}
use shishi.Kdc.{
  Exchange, Server, endtime_set, key_set, clientrealm_set, serverrealm_set, tkt_build, rep_build,
  put, find_principal, find_keys, have_tkt, dbkey,
}

-- What is read of the AP-REQ once its ticket is decrypted: the client and the session key of the
-- ticket, and the authenticator's subkey, none for SHISHI_ASN1_NO_ELEMENT
pub record Opened : Type 0 where
  pub crealm : Outcome Bytes
  pub client : Outcome Bytes
  pub session_key : Outcome Key
  pub subkey : Outcome (Option Key)

-- What the library gives of a TGS-REQ: that of the AP-REQ in it, shishi_ap_req_process_keyusage with
-- a key, and the time that shishi_generalize_time makes of `till`
pub record TgsReq : Type 0 where
  pub req_process : Outcome (Unit {0})
  pub tgrealm : Outcome Bytes
  pub tgname : Outcome Bytes
  pub ap_req_process : Key → Outcome Opened
  pub realm : Outcome Bytes
  pub server : Outcome Bytes
  pub till : Bytes

-- The principal that the presented ticket is for, its first key, and what that key has opened
pub record Granter : Type 0 where
  pub tgrealm : Bytes
  pub tgname : Bytes
  pub tgdbkey : ShisaKey
  pub tgkey : Key
  pub opened : Opened

pub record Target : Type 0 where
  pub serverrealm : Bytes
  pub servername : Bytes
  pub serverdbkey : ShisaKey
  pub serverkey : Key
  pub sessionkey : Key

-- SHISHI_KEYUSAGE_ENCTGSREPPART_SESSION_KEY and SHISHI_KEYUSAGE_ENCTGSREPPART_AUTHENTICATOR_KEY
abbrev pub by_session_key : ℕ
by_session_key = 8

abbrev pub by_authenticator_key : ℕ
by_authenticator_key = 9

-- The key usage and the key of the reply
abbrev pub reply_key : Key → Option Key → ℕ × Key
reply_key oldsessionkey none = (by_session_key, oldsessionkey)
reply_key oldsessionkey (some subkey) = (by_authenticator_key, subkey)

module _ {S : Type 0} (sv : Server S) (req : TgsReq) where
  -- KRB_AP_ERR_NOT_US is 35.
  unfoldable pub tgsreq_granter : S → Run Exchange Granter
  tgsreq_granter s = do
    lift (flow_of req.req_process)
    tgrealm ← lift (flow_of req.tgrealm)
    tgname ← lift (flow_of req.tgname)
    find_principal sv s 35 tgrealm tgname
    tgkeys ← find_keys sv s tgrealm tgname
    tgkey ← lift (flow_of (dbkey (tgkeys.0)))
    opened ← lift (flow_of (req.ap_req_process tgkey))
    pure record {
      tgrealm = tgrealm;
      tgname = tgname;
      tgdbkey = tgkeys.0;
      tgkey = tgkey;
      opened = opened;
    }

  -- KDC_ERR_S_PRINCIPAL_UNKNOWN is 7.
  unfoldable pub tgsreq_target : S → Run Exchange Target
  tgsreq_target s = do
    serverrealm ← lift (flow_of req.realm)
    servername ← lift (flow_of req.server)
    find_principal sv s 7 serverrealm servername
    serverkeys ← find_keys sv s serverrealm servername
    serverkey ← lift (flow_of (dbkey (serverkeys.0)))
    sessionkey ← lift (flow_of (sv.key_random serverkey.type))
    pure record {
      serverrealm = serverrealm;
      servername = servername;
      serverdbkey = serverkeys.0;
      serverkey = serverkey;
      sessionkey = sessionkey;
    }

  unfoldable pub tgsreq_ticket : Opened → Target → Run Exchange (Unit {0})
  tgsreq_ticket o target = do
    clientrealm ← lift (flow_of o.crealm)
    clientname ← lift (flow_of o.client)
    put sv (clientrealm_set clientrealm clientname)
    put sv (endtime_set req.till)
    put sv (key_set target.sessionkey)
    put sv (serverrealm_set target.serverrealm target.servername)
    put sv (tkt_build target.serverkey)

  unfoldable pub tgsreq_reply : Opened → Run Exchange (Unit {0})
  tgsreq_reply o = do
    oldsessionkey ← lift (flow_of o.session_key)
    subkey ← lift (flow_of o.subkey)
    put sv (rep_build ((reply_key oldsessionkey subkey).0) ((reply_key oldsessionkey subkey).1))

  unfoldable pub tgsreq1 : S → Run Exchange (Unit {0})
  unfolding tgsreq_granter tgsreq_target tgsreq_ticket tgsreq_reply
  tgsreq1 s = do
    g ← tgsreq_granter s
    target ← tgsreq_target s
    have_tkt
    tgsreq_ticket g.opened target
    tgsreq_reply g.opened
