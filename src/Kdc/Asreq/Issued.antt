-- ===== src/Kdc/Asreq/Issued.antt =====
-- What asreq1 has done where it returns: which ticket and which reply it has built, or none.
use shishi.Base.{
  ℕ, Bool, true, false, Option, none, some, Bytes, if◌then◌else◌, ◌≡◌, inl, inr, refl, ap, ◌∙◌,
}
use mathlib.Core.Path.{subst}
use shishi.Outcome.{Rc, ok}
use shishi.Kdc.Steps.{go_on, fatal, Run, Ends, stop, bind-Ends, kept-Ends, ◌>>=◌}
use shishi.Kdc.{
  have_tkt, Exchange, Ticket, Server, Write, endtime_set, flags_add, key_set, clientrealm_set,
  serverrealm_set, tkt_build, rep_build, try_put, written, unless_failed, in_tkt, written_tkt,
}
use shishi.Kdc.Put.{put-Ends, put_last-Ends}
use shishi.Kdc.Asreq.{
  AsReq, Parties, Keys, encasreppart, asreq_parties, asreq_keys, is_till, set_till, add_if,
  asreq_flags, asreq_reply, asreq1,
}
use shishi.Kdc.Asreq.Chosen.{
  HasParties, HasKeys, IsUnbuilt, failing, reading, asreq_parties-Ends, asreq_keys-Ends,
}

module _ {S : Type 0} (sv : Server S) (req : AsReq) where
  -- The ticket that is sent
  pub record IsSealed (p : Parties) (k : Keys) (tkt : Ticket) : Type 0 where
    pub client : tkt.client ≡ some (p.realm, p.username)
    pub server : tkt.server ≡ some (p.realm, p.servername)
    pub key : tkt.key ≡ some k.sessionkey
    pub sealed : tkt.sealed ≡ some k.serverkey

  pub record IsIssued (s : S) (t : Exchange) : Type 0 where
    pub parties : Parties
    pub keys : Keys
    pub tkt : Ticket
    pub has_parties : HasParties sv req s parties
    pub has_keys : HasKeys sv req parties keys
    pub has_tkt : t.tkt ≡ some tkt
    pub is_sealed : IsSealed parties keys tkt
    pub replied : t.reply ≡ some (encasreppart, keys.userkey)

  module _ (s : S) (x : Exchange) where
    -- No reply is built yet, and there is a ticket.
    IsBlank : Exchange → Type 0
    IsBlank t = (t.reply ≡ x.reply) × (tkt : Ticket) × (t.tkt ≡ some tkt)

    IsBlank-try :
        (w : Write) (t : Exchange)
        → (written w t).reply ≡ t.reply
        → (written w t).tkt ≡ in_tkt w t.tkt
        → IsBlank t
        → IsBlank (unless_failed (sv.write w t) w t)
    unfolding IsBlank
    IsBlank-try w t e1 e2 (r, tkt, h) = go (sv.write w t)
      where
        go : (o : Option Rc) → IsBlank (unless_failed o w t)
        go none = (e1 ∙ r, written_tkt w tkt, e2 ∙ ap (in_tkt w) h)
        go (some rc) = (r, tkt, h)

    add_if-Ends :
        (b : Bool) (flag : ℕ) (t : Exchange)
        → IsBlank t
        → Ends (λ _. IsBlank) (IsUnbuilt sv req x) (add_if sv req b flag t)
    add_if-Ends true flag t h = IsBlank-try (flags_add flag) t refl refl h
    add_if-Ends false flag t h = h

    asreq_flags-Ends :
        (t : Exchange) → IsBlank t → Ends (λ _. IsBlank) (IsUnbuilt sv req x) (asreq_flags sv req t)
    unfolding asreq_flags
    asreq_flags-Ends t h = adding req.forwardable 0x2 _ t h λ t1 h1.
        adding req.allow_postdate 0x20 _ t1 h1 λ t2 h2. adding req.postdated 0x40 _ t2 h2 λ t3 h3.
          adding req.postdated 0x80 _ t3 h3
            λ t4 h4. adding req.proxiable 0x8 _ t4 h4 λ t5 h5. add_if-Ends req.renewable 0x100 t5 h5
      where
        adding :
            (b : Bool) (flag : ℕ) (f : Unit {0} → Run Exchange (Unit {0})) (t : Exchange)
            → IsBlank t
            → ((t' : Exchange) → IsBlank t' → Ends (λ _. IsBlank) (IsUnbuilt sv req x) (f tt t'))
            → Ends (λ _. IsBlank) (IsUnbuilt sv req x) ((add_if sv req b flag >>= f) t)
        adding b flag f t h k =
            bind-Ends (λ _. IsBlank) (IsUnbuilt sv req x) (λ _. IsBlank) (add_if sv req b flag) f t
              (add_if-Ends b flag t h) (λ _. k)

    have_tkt-Ends : Ends (λ _ t. IsBlank x × (t ≡ x)) (IsUnbuilt sv req x) (have_tkt x)
    unfolding IsBlank
    have_tkt-Ends = go x.tkt refl
      where
        go :
            (o : Option Ticket)
            → x.tkt ≡ o
            → Ends {A = Unit {0}}
                (λ _ t. IsBlank x × (t ≡ x))
                (IsUnbuilt sv req x)
                (elim o [ none ↦ (fatal none, x) | some tkt ↦ (go_on tt, x) ])
        go none e = (refl, inl e)
        go (some tkt) e = ((refl, tkt, e), refl)

    set_till-Ends :
        (till : Bytes × ℕ)
        → req.till ≡ ok till
        → IsBlank x
        → Ends (λ _. IsBlank) (IsUnbuilt sv req x) (set_till sv req till x)
    set_till-Ends till e h = go (is_till sv req till) refl
      where
        go :
            (b : Bool)
            → is_till sv req till ≡ b
            → Ends
                (λ _. IsBlank)
                (IsUnbuilt sv req x)
                ((if b then try_put sv (endtime_set (till.0)) else stop none) x)
        go true q = IsBlank-try (endtime_set (till.0)) x refl refl h
        go false q = (refl, inr (till, e, q))

    asreq_reply-Ends :
        (p : Parties) (k : Keys) (t : Exchange)
        → HasParties sv req s p
        → HasKeys sv req p k
        → IsBlank t
        → Ends (λ _. IsIssued s) (IsUnbuilt sv req x) (asreq_reply sv req p k t)
    unfolding asreq_reply IsBlank
    asreq_reply-Ends p k t hp hk (r, tkt, h) =
        put-Ends sv Q R _ _ t (λ rc. failing sv req x t rc r)
          (put-Ends sv Q R _ _ t1 (λ rc. failing sv req x t1 rc r)
            (put-Ends sv Q R _ _ t2 (λ rc. failing sv req x t2 rc r)
              (put-Ends sv Q R _ _ t3 (λ rc. failing sv req x t3 rc r)
                (put_last-Ends sv Q R _ Q t4 (λ rc. failing sv req x t4 rc r) issued))))
      where
        Q : Unit {0} → Exchange → Type 0
        Q _ = IsIssued s

        R : Option Rc → Exchange → Type 0
        R = IsUnbuilt sv req x

        t1 : Exchange
        t1 = written (key_set k.sessionkey) t

        t2 : Exchange
        t2 = written (clientrealm_set p.realm p.username) t1

        t3 : Exchange
        t3 = written (serverrealm_set p.realm p.servername) t2

        t4 : Exchange
        t4 = written (tkt_build k.serverkey) t3

        changed : Option Ticket → Option Ticket
        changed o = in_tkt (tkt_build k.serverkey) (
            in_tkt (serverrealm_set p.realm p.servername)
              (in_tkt (clientrealm_set p.realm p.username) (in_tkt (key_set k.sessionkey) o)))

        issued : IsIssued s (written (rep_build encasreppart k.userkey) t4)
        issued = record {
          parties = p;
          keys = k;
          tkt = record tkt {
            client = some (p.realm, p.username);
            server = some (p.realm, p.servername);
            key = some k.sessionkey;
            sealed = some k.serverkey;
          };
          has_parties = hp;
          has_keys = hk;
          has_tkt = ap changed h;
          is_sealed = record { client = refl; server = refl; key = refl; sealed = refl };
          replied = refl;
        }

    -- What holds of asreq1, however it ends
    asreq1-Ends : Ends (λ _. IsIssued s) (IsUnbuilt sv req x) (asreq1 sv req s x)
    unfolding asreq1 IsBlank
    asreq1-Ends =
        kept-Ends Q R _ (asreq_parties sv req s) _ x (asreq_parties-Ends sv req s x) λ p hp.
          kept-Ends Q R _ (asreq_keys sv req p) _ x (asreq_keys-Ends sv req s x p) λ k hk.
            kept-Ends Q R _ (have_tkt) _ x have_tkt-Ends λ _ h.
              reading sv req s x Q req.till _ λ till e.
                bind-Ends Q R (λ _. IsBlank) (set_till sv req till) _ x (set_till-Ends till e h)
                  λ _ t h'.
                    bind-Ends Q R (λ _. IsBlank) (asreq_flags sv req) _ t (asreq_flags-Ends t h')
                      λ _ u h''. asreq_reply-Ends p k u hp hk h''
      where
        Q : Unit {0} → Exchange → Type 0
        Q _ = IsIssued s

        R : Option Rc → Exchange → Type 0
        R = IsUnbuilt sv req x

    -- Where asreq1 builds a reply, the client and the server are principals of the database that have
    -- keys there. The ticket names them, holds the session key and is encrypted with the server's
    -- first key; the reply is encrypted with the user's key: the last one of the first type that the
    -- client accepts and a key is there for.
    pub asreq1-IsIssued :
        (u : Unit {0}) (t : Exchange) → asreq1 sv req s x ≡ (go_on u, t) → IsIssued s t
    asreq1-IsIssued u t e = subst (Ends (λ _. IsIssued s) (IsUnbuilt sv req x)) e asreq1-Ends

    -- Where asreq1 leaves for `fatal`, no reply has been built, and with SHISHI_OK it does so only if
    -- there is no ticket or `till` is no time.
    pub asreq1-IsUnbuilt :
        (rc : Option Rc) (t : Exchange)
        → asreq1 sv req s x ≡ (fatal rc, t)
        → IsUnbuilt sv req x rc t
    asreq1-IsUnbuilt rc t e = subst (Ends (λ _. IsIssued s) (IsUnbuilt sv req x)) e asreq1-Ends
