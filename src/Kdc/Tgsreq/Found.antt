-- ===== src/Kdc/Tgsreq/Found.antt =====
-- The principals and the keys that tgsreq1 has found where it goes on to the ticket.
use shishi.Base.{List, ◌∷◌, Option, none, some, ◌≡◌, refl}
use shishi.Outcome.{Rc, Outcome, ok}
use shishi.Shisa.Key.{ShisaKey}
use shishi.Shisa.KeyFiles.{shisa_ok}
use shishi.Shisa.Core.{shisa_principal_find, shisa_keys_find}
use shishi.Kdc.Steps.{Run, Ends, lift, flow_of, kept-Ends, ◌>>=◌}
use shishi.Kdc.{Exchange, Server, find_principal, find_keys, dbkey}
use shishi.Kdc.Put.{read-Ends, find_principal-Ends, find_keys-Ends}
use shishi.Kdc.Tgsreq.{TgsReq, Granter, Target, tgsreq_granter, tgsreq_target}

module _ {S : Type 0} (sv : Server S) (req : TgsReq) where
  -- The presented ticket is for a principal of the database, and that one's first key has opened it.
  pub record HasGranter (s : S) (g : Granter) : Type 0 where
    pub realm_read : req.tgrealm ≡ ok g.tgrealm
    pub name_read : req.tgname ≡ ok g.tgname
    pub found : (shisa_principal_find sv.dbs g.tgrealm g.tgname s).0 ≡ shisa_ok
    pub further : List ShisaKey
    pub keys :
        shisa_keys_find sv.dbs g.tgrealm g.tgname none s ≡ some (shisa_ok, g.tgdbkey ∷ further)
    pub key : dbkey g.tgdbkey ≡ ok g.tgkey
    pub is_opened : req.ap_req_process g.tgkey ≡ ok g.opened

  -- The server is a principal of the database; the session key has the type of its first key.
  pub record HasTarget (s : S) (target : Target) : Type 0 where
    pub realm_read : req.realm ≡ ok target.serverrealm
    pub name_read : req.server ≡ ok target.servername
    pub found : (shisa_principal_find sv.dbs target.serverrealm target.servername s).0 ≡ shisa_ok
    pub further : List ShisaKey
    pub keys :
        shisa_keys_find sv.dbs target.serverrealm target.servername none s
        ≡ some (shisa_ok, target.serverdbkey ∷ further)
    pub key : dbkey target.serverdbkey ≡ ok target.serverkey
    pub session_key : sv.key_random target.serverkey.type ≡ ok target.sessionkey

  -- No reply; with SHISHI_OK only if there is no ticket
  abbrev pub IsUnbuilt : Exchange → Option Rc → Exchange → Type 0
  IsUnbuilt x none t = (t.reply ≡ x.reply) × (x.tkt ≡ none)
  IsUnbuilt x (some rc) t = t.reply ≡ x.reply

  module _ (s : S) (x : Exchange) where
    pub failing : (rc : Rc) (t : Exchange) → t.reply ≡ x.reply → IsUnbuilt x (some rc) t
    failing rc t e = e

    pub reading :
        {A B : Type 0} (Q : B → Exchange → Type 0) (o : Outcome A) (f : A → Run Exchange B)
        (t : Exchange)
        → t.reply ≡ x.reply
        → ((a : A) → o ≡ ok a → Ends Q (IsUnbuilt x) (f a t))
        → Ends Q (IsUnbuilt x) ((lift (flow_of o) >>= f) t)
    reading Q o f t e k = read-Ends Q (IsUnbuilt x) o f t (λ rc. e) k

    pub tgsreq_granter-Ends :
        Ends (λ g t. HasGranter s g × (t ≡ x)) (IsUnbuilt x) (tgsreq_granter sv req s x)
    unfolding tgsreq_granter
    tgsreq_granter-Ends = reading Q req.req_process _ x refl λ _ _.
        reading Q req.tgrealm _ x refl λ tgrealm e1. reading Q req.tgname _ x refl λ tgname e2.
          kept-Ends Q R _ (find_principal sv s 35 tgrealm tgname) _ x
            (find_principal-Ends sv R s x failing 35 tgrealm tgname)
            λ _ u.
              kept-Ends Q R _ (find_keys sv s tgrealm tgname) _ x
                (find_keys-Ends sv R s x failing tgrealm tgname)
                λ tgkeys v. reading Q (dbkey (tgkeys.0)) _ x refl λ tgkey e3.
                  reading Q (req.ap_req_process tgkey) _ x refl λ opened e4. (
                    record {
                      realm_read = e1;
                      name_read = e2;
                      found = u;
                      further = tgkeys.1;
                      keys = v;
                      key = e3;
                      is_opened = e4;
                    },
                    refl,
                  )
      where
        Q : Granter → Exchange → Type 0
        Q g t = HasGranter s g × (t ≡ x)

        R : Option Rc → Exchange → Type 0
        R = IsUnbuilt x

    pub tgsreq_target-Ends :
        Ends (λ target t. HasTarget s target × (t ≡ x)) (IsUnbuilt x) (tgsreq_target sv req s x)
    unfolding tgsreq_target
    tgsreq_target-Ends = reading Q req.realm _ x refl λ serverrealm e1.
        reading Q req.server _ x refl λ servername e2.
          kept-Ends Q R _ (find_principal sv s 7 serverrealm servername) _ x
            (find_principal-Ends sv R s x failing 7 serverrealm servername)
            λ _ u.
              kept-Ends Q R _ (find_keys sv s serverrealm servername) _ x
                (find_keys-Ends sv R s x failing serverrealm servername)
                λ serverkeys v. reading Q (dbkey (serverkeys.0)) _ x refl λ serverkey e3.
                  reading Q (sv.key_random serverkey.type) _ x refl λ sessionkey e4. (
                    record {
                      realm_read = e1;
                      name_read = e2;
                      found = u;
                      further = serverkeys.1;
                      keys = v;
                      key = e3;
                      session_key = e4;
                    },
                    refl,
                  )
      where
        Q : Target → Exchange → Type 0
        Q g t = HasTarget s g × (t ≡ x)

        R : Option Rc → Exchange → Type 0
        R = IsUnbuilt x
