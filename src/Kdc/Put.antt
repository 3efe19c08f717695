-- ===== src/Kdc/Put.antt =====
-- What holds behind the writes of an exchange, and behind the searches of the database.
use shishi.Base.{ℕ, List, ◌∷◌, Option, none, some, Bytes, ◌≡◌, refl}
use shishi.Outcome.{Rc, Outcome, ok, failed, overrun, invalid_principal_name}
use shishi.Shisa.Key.{ShisaKey}
use shishi.Shisa.KeyFiles.{ShisaRc, shisa_ok, no_principal}
use shishi.Shisa.Core.{shisa_principal_find, shisa_keys_find}
use shishi.Kdc.Steps.{Run, Ends, lift, flow_of, ◌>>=◌}
use shishi.Kdc.{
  Exchange, Write, errorcode_set, Server, written, written_if_ok, put, refuse, if_found,
  find_principal, nonempty_keys, find_keys,
}

module _ {T A B : Type 0} (Q : B → T → Type 0) (R : Option Rc → T → Type 0) where
  -- A call of the library behind which `if (rc != SHISHI_OK) goto fatal;` stands
  pub read-Ends :
      (o : Outcome A) (f : A → Run T B) (s : T)
      → ((rc : Rc) → R (some rc) s)
      → ((a : A) → o ≡ ok a → Ends Q R (f a s))
      → Ends Q R ((lift (flow_of o) >>= f) s)
  read-Ends (ok a) f s h k = k a refl
  read-Ends (failed rc) f s h k = h rc
  read-Ends overrun f s h k = tt

module _ {S : Type 0} (sv : Server S) {A : Type 0} (Q : A → Exchange → Type 0)
    (R : Option Rc → Exchange → Type 0) where
  pub put-Ends :
      (w : Write) (f : Unit {0} → Run Exchange A) (x : Exchange)
      → ((rc : Rc) → R (some rc) x)
      → Ends Q R (f tt (written w x))
      → Ends Q R ((put sv w >>= f) x)
  put-Ends w f x h k = go (sv.write w x)
    where
      go : (o : Option Rc) → Ends Q R (((λ y. written_if_ok o w y) >>= f) x)
      go none = k
      go (some rc) = h rc

  pub put_last-Ends :
      (w : Write) (Q : Unit {0} → Exchange → Type 0) (x : Exchange)
      → ((rc : Rc) → R (some rc) x)
      → Q tt (written w x)
      → Ends Q R (put sv w x)
  put_last-Ends w Q x h k = go (sv.write w x)
    where
      go : (o : Option Rc) → Ends Q R (written_if_ok o w x)
      go none = k
      go (some rc) = h rc

  pub refuse-Ends :
      (code : ℕ) (x : Exchange)
      → ((rc : Rc) (y : Exchange) → y.reply ≡ x.reply → R (some rc) y)
      → Ends Q R (refuse sv code x)
  unfolding refuse
  refuse-Ends code x h =
      put-Ends (errorcode_set code) _ x (λ rc. h rc x refl) (h invalid_principal_name _ refl)

module _ {S : Type 0} (sv : Server S) (R : Option Rc → Exchange → Type 0) (s : S) (x : Exchange)
    (fail : (rc : Rc) (t : Exchange) → t.reply ≡ x.reply → R (some rc) t) where
  pub find_principal-Ends :
      (code : ℕ) (realm name : Bytes)
      → Ends
          (λ _ t. ((shisa_principal_find sv.dbs realm name s).0 ≡ shisa_ok) × (t ≡ x))
          R
          (find_principal sv s code realm name x)
  unfolding find_principal
  find_principal-Ends code realm name = go _ refl
    where
      go :
          (r : ShisaRc)
          → (shisa_principal_find sv.dbs realm name s).0 ≡ r
          → Ends
              (λ _ t. ((shisa_principal_find sv.dbs realm name s).0 ≡ shisa_ok) × (t ≡ x))
              R
              (if_found sv code r x)
      go shisa_ok e = (e, refl)
      go no_principal e = refuse-Ends sv _ R code x fail
      go _ e = fail invalid_principal_name x refl

  pub find_keys-Ends :
      (realm name : Bytes)
      → Ends
          (λ keys t.
            (shisa_keys_find sv.dbs realm name none s ≡ some (shisa_ok, keys.0 ∷ keys.1)) × (t ≡ x))
          R
          (find_keys sv s realm name x)
  unfolding find_keys
  find_keys-Ends realm name = go _ refl
    where
      go :
          (r : Option (ShisaRc × List ShisaKey))
          → shisa_keys_find sv.dbs realm name none s ≡ r
          → Ends
              (λ keys t.
                (shisa_keys_find sv.dbs realm name none s ≡ some (shisa_ok, keys.0 ∷ keys.1))
                × (t ≡ x))
              R
              (nonempty_keys sv r, x)
      go none e = tt
      go (some (shisa_ok, key ∷ keys)) e = (e, refl)
      go (some _) e = fail invalid_principal_name x refl
