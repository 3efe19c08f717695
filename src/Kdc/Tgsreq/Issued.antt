-- ===== src/Kdc/Tgsreq/Issued.antt =====
-- What tgsreq1 has done where it returns: for whom it has built a ticket and a reply, or none.
use shishi.Base.{Option, none, some, Bytes, ◌≡◌, refl, ap}
use mathlib.Core.Path.{subst}
use shishi.Outcome.{Rc, ok}
use shishi.Key.{Key}
use shishi.Kdc.Steps.{go_on, fatal, Ends, bind-Ends, kept-Ends, map-Ends}
use shishi.Kdc.{
  Exchange, Ticket, Server, endtime_set, key_set, clientrealm_set, serverrealm_set, tkt_build,
  written, in_tkt, have_tkt,
}
use shishi.Kdc.Put.{put-Ends, put_last-Ends}
use shishi.Kdc.Tgsreq.{
  TgsReq, Opened, Granter, Target, reply_key, tgsreq_granter, tgsreq_target, tgsreq_ticket,
  tgsreq_reply, tgsreq1,
}
use shishi.Kdc.Tgsreq.Found.{
  HasGranter, HasTarget, IsUnbuilt, reading, tgsreq_granter-Ends, tgsreq_target-Ends,
}

module _ {S : Type 0} (sv : Server S) (req : TgsReq) where
  -- The new ticket names the client of the presented one.
  pub record HasTicket (o : Opened) (target : Target) (t : Exchange) : Type 0 where
    pub clientrealm : Bytes
    pub clientname : Bytes
    pub tkt : Ticket
    pub crealm_read : o.crealm ≡ ok clientrealm
    pub client_read : o.client ≡ ok clientname
    pub has_tkt : t.tkt ≡ some tkt
    pub client : tkt.client ≡ some (clientrealm, clientname)
    pub server : tkt.server ≡ some (target.serverrealm, target.servername)
    pub endtime : tkt.endtime ≡ some req.till
    pub key : tkt.key ≡ some target.sessionkey
    pub sealed : tkt.sealed ≡ some target.serverkey

  pub record IsReplied (o : Opened) (t : Exchange) : Type 0 where
    pub oldsessionkey : Key
    pub subkey : Option Key
    pub session_read : o.session_key ≡ ok oldsessionkey
    pub subkey_read : o.subkey ≡ ok subkey
    pub replied : t.reply ≡ some (reply_key oldsessionkey subkey)

  pub record IsIssued (s : S) (t : Exchange) : Type 0 where
    pub granter : Granter
    pub target : Target
    pub has_granter : HasGranter sv req s granter
    pub has_target : HasTarget sv req s target
    pub has_ticket : HasTicket granter.opened target t
    pub is_replied : IsReplied granter.opened t

  module _ (s : S) (x : Exchange) where
    have_tkt-Ends :
        Ends
          (λ _ t. ((tkt : Ticket) × (x.tkt ≡ some tkt)) × (t ≡ x))
          (IsUnbuilt sv req x)
          (have_tkt x)
    have_tkt-Ends = go x.tkt refl
      where
        go :
            (o : Option Ticket)
            → x.tkt ≡ o
            → Ends {A = Unit {0}}
                (λ _ t. ((tkt : Ticket) × (x.tkt ≡ some tkt)) × (t ≡ x))
                (IsUnbuilt sv req x)
                (elim o [ none ↦ (fatal none, x) | some tkt ↦ (go_on tt, x) ])
        go none e = (refl, e)
        go (some tkt) e = ((tkt, e), refl)

    tgsreq_ticket-Ends :
        (o : Opened) (target : Target) (tkt : Ticket)
        → x.tkt ≡ some tkt
        → Ends
            (λ _ t. HasTicket o target t × (t.reply ≡ x.reply))
            (IsUnbuilt sv req x)
            (tgsreq_ticket sv req o target x)
    unfolding tgsreq_ticket
    tgsreq_ticket-Ends o target tkt h = reading sv req s x Q o.crealm _ x refl λ clientrealm e1.
        reading sv req s x Q o.client _ x refl λ clientname e2.
          let t1 = written (clientrealm_set clientrealm clientname) x in
          let t2 = written (endtime_set req.till) t1 in
          let t3 = written (key_set target.sessionkey) t2 in
          let t4 = written (serverrealm_set target.serverrealm target.servername) t3 in
          put-Ends sv Q R _ _ x (λ rc. refl)
            (put-Ends sv Q R _ _ t1 (λ rc. refl)
              (put-Ends sv Q R _ _ t2 (λ rc. refl)
                (put-Ends sv Q R _ _ t3 (λ rc. refl)
                  (put_last-Ends sv Q R _ Q t4 (λ rc. refl)
                    (issued clientrealm clientname e1 e2, refl)))))
      where
        Q : Unit {0} → Exchange → Type 0
        Q _ t = HasTicket o target t × (t.reply ≡ x.reply)

        R : Option Rc → Exchange → Type 0
        R = IsUnbuilt sv req x

        changed : Bytes → Bytes → Option Ticket → Option Ticket
        changed clientrealm clientname o = in_tkt (tkt_build target.serverkey) (
            in_tkt (serverrealm_set target.serverrealm target.servername) (
              in_tkt (key_set target.sessionkey) (
                in_tkt (endtime_set req.till) (in_tkt (clientrealm_set clientrealm clientname) o))))

        issued :
            (clientrealm clientname : Bytes)
            → o.crealm ≡ ok clientrealm
            → o.client ≡ ok clientname
            → HasTicket o target (record x { tkt = changed clientrealm clientname x.tkt })
        issued clientrealm clientname e1 e2 = record {
          clientrealm = clientrealm;
          clientname = clientname;
          tkt = record tkt {
            endtime = some req.till;
            key = some target.sessionkey;
            client = some (clientrealm, clientname);
            server = some (target.serverrealm, target.servername);
            sealed = some target.serverkey;
          };
          crealm_read = e1;
          client_read = e2;
          has_tkt = ap (changed clientrealm clientname) h;
          client = refl;
          server = refl;
          endtime = refl;
          key = refl;
          sealed = refl;
        }

    tgsreq_reply-Ends :
        (o : Opened) (target : Target) (t : Exchange)
        → HasTicket o target t
        → t.reply ≡ x.reply
        → Ends
            (λ _ u. HasTicket o target u × IsReplied o u)
            (IsUnbuilt sv req x)
            (tgsreq_reply sv req o t)
    unfolding tgsreq_reply
    tgsreq_reply-Ends o target t h r = reading sv req s x Q o.session_key _ t r λ oldsessionkey e1.
        reading sv req s x Q o.subkey _ t r λ subkey e2.
          put_last-Ends sv Q (IsUnbuilt sv req x) _ Q t (λ rc. r)
            (
              record {
                clientrealm = h.clientrealm;
                clientname = h.clientname;
                tkt = h.tkt;
                crealm_read = h.crealm_read;
                client_read = h.client_read;
                has_tkt = h.has_tkt;
                client = h.client;
                server = h.server;
                endtime = h.endtime;
                key = h.key;
                sealed = h.sealed;
              },
              record {
                oldsessionkey = oldsessionkey;
                subkey = subkey;
                session_read = e1;
                subkey_read = e2;
                replied = refl;
              },
            )
      where
        Q : Unit {0} → Exchange → Type 0
        Q _ u = HasTicket o target u × IsReplied o u

    -- What holds of tgsreq1, however it ends
    tgsreq1-Ends : Ends (λ _. IsIssued s) (IsUnbuilt sv req x) (tgsreq1 sv req s x)
    unfolding tgsreq1
    tgsreq1-Ends =
        kept-Ends Q R _ (tgsreq_granter sv req s) _ x (tgsreq_granter-Ends sv req s x) λ g hg.
          kept-Ends Q R _ (tgsreq_target sv req s) _ x (tgsreq_target-Ends sv req s x) λ target ht.
            kept-Ends Q R _ have_tkt _ x have_tkt-Ends λ _ h.
              bind-Ends Q R (λ _ t. HasTicket g.opened target t × (t.reply ≡ x.reply))
                (tgsreq_ticket sv req g.opened target) _ x
                (tgsreq_ticket-Ends g.opened target (h.0) (h.1))
                λ _ t k.
                  map-Ends Q R (λ _ u. HasTicket g.opened target u × IsReplied g.opened u)
                    (tgsreq_reply sv req g.opened t)
                    (λ _ u m. record {
                      granter = g;
                      target = target;
                      has_granter = hg;
                      has_target = ht;
                      has_ticket = m.0;
                      is_replied = m.1;
                    })
                    (tgsreq_reply-Ends g.opened target t (k.0) (k.1))
      where
        Q : Unit {0} → Exchange → Type 0
        Q _ = IsIssued s

        R : Option Rc → Exchange → Type 0
        R = IsUnbuilt sv req x

    -- Where tgsreq1 builds a reply, the presented ticket is for a principal of the database whose first
    -- key opens it, and the server is one too. The new ticket names the client of the presented one,
    -- ends at the time that is asked for and is encrypted with the server's first key; the reply is
    -- encrypted with the authenticator's subkey, or with the presented ticket's session key where
    -- there is none.
    pub tgsreq1-IsIssued :
        (u : Unit {0}) (t : Exchange) → tgsreq1 sv req s x ≡ (go_on u, t) → IsIssued s t
    tgsreq1-IsIssued u t e = subst (Ends (λ _. IsIssued s) (IsUnbuilt sv req x)) e tgsreq1-Ends

    -- Where tgsreq1 leaves for `fatal`, no reply has been built, and with SHISHI_OK it does so only if
    -- there is no ticket.
    pub tgsreq1-IsUnbuilt :
        (rc : Option Rc) (t : Exchange)
        → tgsreq1 sv req s x ≡ (fatal rc, t)
        → IsUnbuilt sv req x rc t
    tgsreq1-IsUnbuilt rc t e = subst (Ends (λ _. IsIssued s) (IsUnbuilt sv req x)) e tgsreq1-Ends
