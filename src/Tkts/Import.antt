-- ===== src/Tkts/Import.antt =====
-- Importing a credential cache into a ticket set: shishi_tkts_add_ccache_mem and
-- shishi_tkts_from_ccache_mem of lib/tktccache.c. The decoding of a ticket, and the ASN.1 calls that
-- make the new ticket of a credential, are a parameter. The set is returned beside the return code,
-- since a call that fails has added the tickets in front.
pub mod Loop
pub mod RoundTrip
use shishi.Base.{
  ℕ, zero, suc, Bool, true, false, List, [], ◌∷◌, ◌++◌, Option, none, some, Bytes, length, drop,
  ◌==◌,
}
use shishi.Outcome.{Outcome, ok, failed, overrun, ccache_error}
use shishi.Tkt.{Tkt}
use shishi.Ccache.{Credential, Cache}
use shishi.Ccache.Parse.{ccache_parse, ccache_parse_credential}
use shishi.Cipher.{cipher_keylen}

-- shishi_der2asn1_ticket, and the calls from shishi_tkt to shishi_key_done, which may fail
pub record Importer : Type 1 where
  pub Ticket : Type 0
  pub der2asn1_ticket : Bytes → Option Ticket
  pub new_tkt : Credential → Ticket → Outcome Tkt

abbrev pub Imported : Type 0
Imported = Outcome (Unit {0}) × List Tkt

module _ (x : Importer) where
  -- What the turn does with the new ticket: `again` is the next turn, over what is left.
  unfoldable pub add_new :
      (Bytes → List Tkt → Option Imported) → Bytes → ℕ → List Tkt → Outcome Tkt → Option Imported
  add_new again bytes n tkts (ok tkt) = again (drop n bytes) (tkts ++ tkt ∷ [])
  add_new again bytes n tkts (failed rc) = some (failed rc, tkts)
  add_new again bytes n tkts overrun = some (overrun, tkts)

  -- `if (!ticket) continue;`
  unfoldable pub with_ticket :
      (Bytes → List Tkt → Option Imported)
      → Bytes
      → Credential
      → ℕ
      → List Tkt
      → Option x.Ticket
      → Option Imported
  unfolding add_new
  with_ticket again bytes cred n tkts none = again bytes tkts
  with_ticket again bytes cred n tkts (some ticket) =
      add_new again bytes n tkts (x.new_tkt cred ticket)

  -- `if (shishi_cipher_keylen (cred.key.keytype) != cred.key.keylen) continue;`
  unfoldable pub with_keylen :
      (Bytes → List Tkt → Option Imported)
      → Bytes
      → Credential
      → ℕ
      → List Tkt
      → Bool
      → Option Imported
  unfolding with_ticket
  with_keylen again bytes cred n tkts true =
      with_ticket again bytes cred n tkts (x.der2asn1_ticket cred.ticket)
  with_keylen again bytes cred n tkts false = again bytes tkts

  unfoldable pub with_parsed :
      (Bytes → List Tkt → Option Imported)
      → Bytes
      → List Tkt
      → Outcome (Credential × ℕ)
      → Option Imported
  unfolding with_keylen
  with_parsed again bytes tkts (ok (cred, n)) =
      with_keylen again bytes cred n tkts
        (cipher_keylen cred.key.keytype == length cred.key.keyvalue)
  with_parsed again bytes tkts (failed rc) = some (failed ccache_error, tkts)
  with_parsed again bytes tkts overrun = some (overrun, tkts)

  -- `while (ccache.credentialslen)`; none is that the fuel ran out.
  unfoldable pub add_credentials : ℕ → Bytes → List Tkt → Option Imported
  unfolding with_parsed
  add_credentials zero bytes tkts = none
  add_credentials (suc fuel) [] tkts = some (ok tt, tkts)
  add_credentials (suc fuel) (b ∷ bytes) tkts =
      with_parsed (λ left set. add_credentials fuel left set) (b ∷ bytes) tkts
        (ccache_parse_credential (b ∷ bytes))

  unfoldable pub add_cache : ℕ → List Tkt → Outcome Cache → Option Imported
  unfolding add_credentials
  add_cache fuel tkts (ok ccache) = add_credentials fuel ccache.credentials tkts
  add_cache fuel tkts (failed rc) = some (failed ccache_error, tkts)
  add_cache fuel tkts overrun = some (overrun, tkts)

  unfoldable pub tkts_add_ccache_mem : ℕ → Bytes → List Tkt → Option Imported
  unfolding add_cache
  tkts_add_ccache_mem fuel cache tkts = add_cache fuel tkts (ccache_parse cache)

  -- The new set, where the import succeeds
  unfoldable pub imported_set : Option Imported → Option (Outcome (List Tkt))
  imported_set none = none
  imported_set (some (ok u, tkts)) = some (ok tkts)
  imported_set (some (failed rc, tkts)) = some (failed rc)
  imported_set (some (overrun, tkts)) = some overrun

  unfoldable pub tkts_from_ccache_mem : ℕ → Bytes → Option (Outcome (List Tkt))
  unfolding tkts_add_ccache_mem imported_set
  tkts_from_ccache_mem fuel cache = imported_set (tkts_add_ccache_mem fuel cache [])
