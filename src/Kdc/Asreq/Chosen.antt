-- ===== src/Kdc/Asreq/Chosen.antt =====
-- The principals and the keys that asreq1 has found and chosen where it goes on to the ticket.
use shishi.Base.{ℕ, false, List, Option, none, some, Bytes, ◌≡◌, ◌⊎◌, refl}
use shishi.Outcome.{Rc, Outcome, ok}
use shishi.Shisa.Key.{ShisaKey}
use shishi.Shisa.KeyFiles.{shisa_ok}
use shishi.Shisa.Core.{shisa_principal_find, shisa_keys_find}
use shishi.Kdc.Steps.{Run, Ends, lift, flow_of, kept-Ends, ◌>>=◌}
use shishi.Kdc.Select.{select, no_type, or_default}
use shishi.Kdc.Select.Choice.{IsFirst, IsLast, UserChoice, user_key, TypeChoice}
use shishi.Kdc.Select.First.{select-UserChoice, select-TypeChoice}
use shishi.Kdc.{dbkey, Exchange, Server, find_principal, find_keys}
use shishi.Kdc.Put.{find_principal-Ends, find_keys-Ends, read-Ends, refuse-Ends}
use shishi.Kdc.Asreq.{
  AsReq, Parties, Keys, all_keys, asreq_parties, key_or_refuse, asreq_keys, is_till,
}

module _ {S : Type 0} (sv : Server S) (req : AsReq) where
  -- The request names two principals of the database, and both have keys there.
  pub record HasParties (s : S) (p : Parties) : Type 0 where
    pub realm_read : req.realm ≡ ok p.realm
    pub client_read : req.client ≡ ok p.username
    pub server_read : req.server ≡ ok p.servername
    pub user_found : (shisa_principal_find sv.dbs p.realm p.username s).0 ≡ shisa_ok
    pub server_found : (shisa_principal_find sv.dbs p.realm p.servername s).0 ≡ shisa_ok
    pub user_keys :
        shisa_keys_find sv.dbs p.realm p.username none s ≡ some (shisa_ok, all_keys p.userkeys)
    pub server_keys :
        shisa_keys_find sv.dbs p.realm p.servername none s ≡ some (shisa_ok, all_keys p.serverkeys)

  -- The user's key is the last one of the first type that the client accepts and a key is there for;
  -- the server's is the first one; the session key's type is the first that the client accepts and
  -- the server has a key of, or the configured one.
  pub record HasKeys (p : Parties) (k : Keys) : Type 0 where
    pub userdbkey : ShisaKey
    pub sessionkeytype : ℕ
    pub is_first : IsFirst (all_keys p.userkeys) req.etypes userdbkey.etype
    pub is_last : IsLast (all_keys p.userkeys) userdbkey
    pub user_key : dbkey userdbkey ≡ ok k.userkey
    pub server_key : dbkey (p.serverkeys.0) ≡ ok k.serverkey
    pub type_choice : TypeChoice (all_keys p.serverkeys) req.etypes sessionkeytype
    pub session_key : sv.key_random (or_default sv.clientkdcetypes sessionkeytype) ≡ ok k.sessionkey

  -- SHISHI_OK without a reply
  abbrev pub NoTicket : Exchange → Type 0
  NoTicket x =
      (x.tkt ≡ none) ⊎ ((till : Bytes × ℕ) × (req.till ≡ ok till) × (is_till sv req till ≡ false))

  abbrev pub IsUnbuilt : Exchange → Option Rc → Exchange → Type 0
  IsUnbuilt x none t = (t.reply ≡ x.reply) × NoTicket x
  IsUnbuilt x (some rc) t = t.reply ≡ x.reply

  pub failing : (x t : Exchange) (rc : Rc) → t.reply ≡ x.reply → IsUnbuilt x (some rc) t
  failing x t rc e = e

  module _ (s : S) (x : Exchange) where
    pub reading :
        {A B : Type 0} (Q : B → Exchange → Type 0) (o : Outcome A) (f : A → Run Exchange B)
        → ((a : A) → o ≡ ok a → Ends Q (IsUnbuilt x) (f a x))
        → Ends Q (IsUnbuilt x) ((lift (flow_of o) >>= f) x)
    reading Q o f k = read-Ends Q (IsUnbuilt x) o f x (λ rc. failing x x rc refl) k

    pub asreq_parties-Ends :
        Ends (λ p t. HasParties s p × (t ≡ x)) (IsUnbuilt x) (asreq_parties sv req s x)
    unfolding asreq_parties find_keys
    asreq_parties-Ends = reading Q req.realm _ λ realm e1. reading Q req.client _ λ username e2.
        reading Q req.server _ λ servername e3.
          kept-Ends Q R _ (find_principal sv s 6 realm username) _ x (principal 6 realm username)
            λ _ u.
              kept-Ends Q R _ (find_keys sv s realm username) _ x (keys realm username)
                λ userkeys uk.
                  kept-Ends Q R _ (find_principal sv s 7 realm servername) _ x
                    (principal 7 realm servername)
                    λ _ v.
                      kept-Ends Q R _ (find_keys sv s realm servername) _ x (keys realm servername)
                        λ serverkeys vk. (
                          record {
                            realm_read = e1;
                            client_read = e2;
                            server_read = e3;
                            user_found = u;
                            server_found = v;
                            user_keys = uk;
                            server_keys = vk;
                          },
                          refl,
                        )
      where
        principal :
            (code : ℕ) (realm name : Bytes)
            → Ends
                (λ _ t. ((shisa_principal_find sv.dbs realm name s).0 ≡ shisa_ok) × (t ≡ x))
                (IsUnbuilt x)
                (find_principal sv s code realm name x)
        principal = find_principal-Ends sv (IsUnbuilt x) s x (λ rc t. failing x t rc)

        keys :
            (realm name : Bytes)
            → Ends
                (λ keys t.
                  (shisa_keys_find sv.dbs realm name none s ≡ some (shisa_ok, all_keys keys))
                  × (t ≡ x))
                (IsUnbuilt x)
                (find_keys sv s realm name x)
        keys = find_keys-Ends sv (IsUnbuilt x) s x (λ rc t. failing x t rc)

        Q : Parties → Exchange → Type 0
        Q p t = HasParties s p × (t ≡ x)

        R : Option Rc → Exchange → Type 0
        R = IsUnbuilt x

    key_or_refuse-Ends :
        (keys : List ShisaKey) (found : Option ShisaKey)
        → UserChoice keys req.etypes found
        → Ends
            (λ key t. (IsFirst keys req.etypes key.etype × IsLast keys key) × (t ≡ x))
            (IsUnbuilt x)
            (key_or_refuse sv req found x)
    key_or_refuse-Ends keys none c = refuse-Ends sv _ _ 14 x (λ rc t q. failing x t rc q)
    key_or_refuse-Ends keys (some key) (user_key _ f l) = ((f, l), refl)

    pub asreq_keys-Ends :
        (p : Parties) → Ends (λ k t. HasKeys p k × (t ≡ x)) (IsUnbuilt x) (asreq_keys sv req p x)
    unfolding asreq_keys
    asreq_keys-Ends p =
        kept-Ends Q R _ (key_or_refuse sv req (chosen.1)) _ x
          (key_or_refuse-Ends (all_keys p.userkeys) (chosen.1)
            (select-UserChoice (all_keys p.serverkeys) (all_keys p.userkeys) req.etypes no_type))
          λ userdbkey c. reading Q (dbkey userdbkey) _ λ userkey e1.
            reading Q (dbkey (p.serverkeys.0)) _ λ serverkey e2.
              reading Q (sv.key_random (or_default sv.clientkdcetypes (chosen.0))) _
                λ sessionkey e3. (
                  record {
                    userdbkey = userdbkey;
                    sessionkeytype = chosen.0;
                    is_first = c.0;
                    is_last = c.1;
                    user_key = e1;
                    server_key = e2;
                    type_choice =
                        select-TypeChoice (all_keys p.serverkeys) (all_keys p.userkeys) req.etypes
                          none;
                    session_key = e3;
                  },
                  refl,
                )
      where
        chosen : ℕ × Option ShisaKey
        chosen = select (all_keys p.serverkeys) (all_keys p.userkeys) req.etypes (no_type, none)

        Q : Keys → Exchange → Type 0
        Q k t = HasKeys p k × (t ≡ x)

        R : Option Rc → Exchange → Type 0
        R = IsUnbuilt x
