-- ===== src/Kdc/Process/Refused.antt =====
-- The AS-REQs that are refused with an error code of their own.
use shishi.Base.{
  ℕ, true, false, List, [], ◌∷◌, ◌++◌, Option, none, some, Bytes, All, ◌≡◌, refl, sym, ◌∙◌,
}
use mathlib.Core.Path.{subst}
use shishi.Outcome.{ok, invalid_principal_name}
use shishi.Shisa.Key.{ShisaKey}
use shishi.Shisa.KeyFiles.{shisa_ok, no_principal}
use shishi.Shisa.Core.{shisa_principal_find, shisa_keys_find}
use shishi.Kdc.Steps.{fatal, flow_of}
use shishi.Kdc.{Exchange, Server, errorcode_set, find_principal, find_keys, refuse}
use shishi.Kdc.Select.{no_type}
use shishi.Kdc.Select.Choice.{usable, UserChoice, user_key}
use shishi.Kdc.Select.First.{select-UserChoice}
use shishi.Kdc.Asreq.{AsReq, asreq1, asreq_parties, asreq_keys}
use shishi.Kdc.Process.{Messages, asreq}

All_middle :
    (P : ℕ → Type 0) (before : List ℕ) (e : ℕ) (after : List ℕ) → All P (before ++ e ∷ after) → P e
All_middle P [] e after h = h.0
All_middle P (b ∷ before) e after h = All_middle P before e after (h.1)

-- The choice, where no type can be used
no_choice :
    (keys : List ShisaKey) (etypes : List ℕ) (found : Option ShisaKey)
    → UserChoice keys etypes found
    → All (λ e. usable keys e ≡ false) etypes
    → found ≡ none
no_choice keys etypes none c h = refl
no_choice keys etypes (some key) (user_key _ f l) h =
    let unusable : usable keys key.etype ≡ false =
      All_middle _ f.before key.etype f.after (subst (All _) f.is_split h) in
    let no : false ≡ true = sym unusable ∙ f.is_usable in absurd cc

module _ {S : Type 0} (sv : Server S) (req : AsReq) (s : S) (x : Exchange) where
  -- Why a request is refused, whose realm, client and server can be read, with which error code
  pub data IsRefused (realm client server : Bytes) : ℕ → Type 0 where
    unknown_client :
        (shisa_principal_find sv.dbs realm client s).0 ≡ no_principal
        → IsRefused realm client server 6
    unknown_server :
        (key : ShisaKey) (keys : List ShisaKey)
        → (shisa_principal_find sv.dbs realm client s).0 ≡ shisa_ok
        → shisa_keys_find sv.dbs realm client none s ≡ some (shisa_ok, key ∷ keys)
        → (shisa_principal_find sv.dbs realm server s).0 ≡ no_principal
        → IsRefused realm client server 7
    no_etype :
        (key : ShisaKey) (keys : List ShisaKey) (serverkey : ShisaKey) (serverkeys : List ShisaKey)
        → (shisa_principal_find sv.dbs realm client s).0 ≡ shisa_ok
        → shisa_keys_find sv.dbs realm client none s ≡ some (shisa_ok, key ∷ keys)
        → (shisa_principal_find sv.dbs realm server s).0 ≡ shisa_ok
        → shisa_keys_find sv.dbs realm server none s ≡ some (shisa_ok, serverkey ∷ serverkeys)
        → All (λ e. usable (key ∷ keys) e ≡ false) req.etypes
        → IsRefused realm client server 14

  asreq1-IsRefused :
      {realm client server : Bytes} {code : ℕ}
      → req.realm ≡ ok realm
      → req.client ≡ ok client
      → req.server ≡ ok server
      → IsRefused realm client server code
      → sv.write (errorcode_set code) x ≡ none
      → asreq1 sv req s x
        ≡ (fatal (some invalid_principal_name), record x { errorcode = some code })
  unfolding asreq1 asreq_parties asreq_keys find_principal find_keys refuse
  asreq1-IsRefused e1 e2 e3 (unknown_client u) w = rw (e1, e2, e3, u, w) refl
  asreq1-IsRefused e1 e2 e3 (unknown_server key keys u k v) w = rw (e1, e2, e3, u, k, v, w) refl
  asreq1-IsRefused e1 e2 e3 (no_etype key keys serverkey serverkeys u k v l all) w =
      let n =
        no_choice _ _ _ (select-UserChoice (serverkey ∷ serverkeys) (key ∷ keys) req.etypes no_type)
          all in
      rw (e1, e2, e3, u, k, v, l, n, w) refl

  -- An AS-REQ is answered with the KRB-ERROR that has code 6 if the client is not in the database;
  -- 7 if the client is, with keys, and the server is not; and 14 if both are, with keys, and the
  -- client accepts no type of the user's keys that the library has. The conditions: the exchange
  -- is made, the names can be read and the error code written.
  pub asreq-IsRefused :
      (m : Messages) (realm client server : Bytes) (code : ℕ)
      → m.new_as ≡ ok x
      → req.realm ≡ ok realm
      → req.client ≡ ok client
      → req.server ≡ ok server
      → IsRefused realm client server code
      → sv.write (errorcode_set code) x ≡ none
      → asreq m sv s req ≡ flow_of (m.as_krberror_der (record x { errorcode = some code }))
  unfolding asreq
  asreq-IsRefused m realm client server code n e1 e2 e3 r w =
      rw (n, asreq1-IsRefused e1 e2 e3 r w) refl
