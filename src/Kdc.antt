-- ===== src/Kdc.antt =====
-- The processing of requests by the KDC: src/kdc.c. What the ASN.1 library gives of a message, and
-- whether it writes a field, are parameters, as are random keys and the start of an exchange; the
-- database is that of db/core.c.
pub mod Steps
pub mod Select
pub mod Put
pub mod Asreq
pub mod Tgsreq
pub mod Process
use shishi.Base.{
  ℕ, ◌+◌, Bool, true, false, List, [], ◌∷◌, Option, none, some, Bytes, if◌then◌else◌, str_equal,
}
use shishi.Outcome.{Rc, Outcome, invalid_principal_name}
use shishi.Key.{Key, key_from_value}
use shishi.Tkt.{has_bit}
use shishi.Shisa.Key.{ShisaKey}
use shishi.Shisa.KeyFiles.{ShisaRc, shisa_ok, no_principal}
use shishi.Shisa.File.{ShisaPrincipal}
use shishi.Shisa.Core.{Backend, shisa_principal_find, shisa_keys_find}
use shishi.Kdc.Steps.{Flow, go_on, fatal, hangs, Run, pure, lift, stop, ◌>>=◌, ◌>>◌}

-- The ticket of an exchange: the fields of its EncTicketPart, and the key that the ticket is
-- encrypted with, once it is.
pub record Ticket : Type 0 where
  pub endtime : Option Bytes
  pub flags : ℕ
  pub key : Option Key
  pub client : Option (Bytes × Bytes)
  pub server : Option (Bytes × Bytes)
  pub sealed : Option Key

-- struct Shishi_as and struct Shishi_tgs: the error code of the KRB-ERROR, the ticket, which may be
-- NULL, and the key usage and the key of the reply, once it is built
pub record Exchange : Type 0 where
  pub errorcode : Option ℕ
  pub tkt : Option Ticket
  pub reply : Option (ℕ × Key)

-- The writes of an exchange
pub data Write : Type 0 where
  errorcode_set : ℕ → Write
  endtime_set : Bytes → Write
  flags_add : ℕ → Write
  key_set : Key → Write
  clientrealm_set : Bytes → Bytes → Write
  serverrealm_set : Bytes → Bytes → Write
  tkt_build : Key → Write
  rep_build : ℕ → Key → Write

-- `flags |= flag` for a flag of one bit
abbrev pub add_flag : ℕ → ℕ → ℕ
add_flag flag flags = if has_bit flag flags then flags else flags + flag

abbrev pub written_tkt : Write → Ticket → Ticket
written_tkt (endtime_set till) tkt = record tkt { endtime = some till }
written_tkt (flags_add flag) tkt = record tkt { flags = add_flag flag tkt.flags }
written_tkt (key_set key) tkt = record tkt { key = some key }
written_tkt (clientrealm_set realm client) tkt = record tkt { client = some (realm, client) }
written_tkt (serverrealm_set realm server) tkt = record tkt { server = some (realm, server) }
written_tkt (tkt_build key) tkt = record tkt { sealed = some key }
written_tkt _ tkt = tkt

abbrev pub in_tkt : Write → Option Ticket → Option Ticket
in_tkt w none = none
in_tkt w (some tkt) = some (written_tkt w tkt)

-- What an exchange is after a write that succeeds
abbrev pub written : Write → Exchange → Exchange
written (errorcode_set code) x = record x { errorcode = some code }
written (rep_build usage key) x = record x { reply = some (usage, key) }
written w x = record x { tkt = in_tkt w x.tkt }

-- The handles `handle` and `dbh`, and what the libraries give. A write answers with the return code,
-- none for SHISHI_OK.
pub record Server (S : Type 0) : Type 0 where
  pub dbs : List (Backend S)
  pub clientkdcetypes : List ℕ
  pub key_random : ℕ → Outcome Key
  pub write : Write → Exchange → Option Rc

abbrev pub written_if_ok : Option Rc → Write → Exchange → Flow (Unit {0}) × Exchange
written_if_ok none w x = (go_on tt, written w x)
written_if_ok (some rc) w x = (fatal (some rc), x)

abbrev pub unless_failed : Option Rc → Write → Exchange → Exchange
unless_failed none w x = written w x
unless_failed (some rc) w x = x

-- `tkt == NULL` goes to `fatal` with SHISHI_OK.
abbrev pub have_tkt : Run Exchange (Unit {0})
have_tkt x = elim x.tkt [ none ↦ (fatal none, x) | some tkt ↦ (go_on tt, x) ]

-- shishi_key_from_value of a key of the database
abbrev pub dbkey : ShisaKey → Outcome Key
dbkey key = key_from_value key.etype (some key.key)

module _ {S : Type 0} (sv : Server S) where
  -- A write behind which `if (rc != SHISHI_OK) goto fatal;` stands
  abbrev pub put : Write → Run Exchange (Unit {0})
  put w x = written_if_ok (sv.write w x) w x

  -- A write whose return code is not read: one that fails leaves the field.
  abbrev pub try_put : Write → Run Exchange (Unit {0})
  try_put w x = (go_on tt, unless_failed (sv.write w x) w x)

  -- The refusal of a principal that is not there
  unfoldable pub refuse : {A : Type 0} → ℕ → Run Exchange A
  refuse code = do put (errorcode_set code); stop (some invalid_principal_name)

  abbrev pub if_found : ℕ → ShisaRc → Run Exchange (Unit {0})
  if_found code shisa_ok = pure tt
  if_found code no_principal = refuse code
  if_found code _ = stop (some invalid_principal_name)

  -- shisa_principal_find and the tests behind it
  unfoldable pub find_principal : S → ℕ → Bytes → Bytes → Run Exchange (Unit {0})
  find_principal s code realm name = if_found code ((shisa_principal_find sv.dbs realm name s).0)

  -- `rc != SHISA_OK || nkeys == 0`; the first key and the further ones
  abbrev pub nonempty_keys : Option (ShisaRc × List ShisaKey) → Flow (ShisaKey × List ShisaKey)
  nonempty_keys none = hangs
  nonempty_keys (some (shisa_ok, key ∷ keys)) = go_on (key, keys)
  nonempty_keys (some _) = fatal (some invalid_principal_name)

  -- shisa_keys_find and the tests behind it
  unfoldable pub find_keys : S → Bytes → Bytes → Run Exchange (ShisaKey × List ShisaKey)
  find_keys s realm name = lift (nonempty_keys (shisa_keys_find sv.dbs realm name none s))
