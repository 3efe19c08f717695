-- ===== src/Shisa/Core.antt =====
-- The list of databases: db/core.c, which calls the databases in turn. A database is the record of its
-- functions that struct _Shisa_backend points to; `none` in a result is a call that does not return.
pub mod Keys
use shishi.Base.{
  ℕ, Bool, true, false, List, [], ◌∷◌, ◌++◌, Option, none, some, Bytes, if◌then◌else◌,
}
use shishi.Shisa.Key.{ShisaKey}
use shishi.Shisa.System.{System}
use shishi.Shisa.KeyFiles.{
  ShisaRc, shisa_ok, no_realm, no_principal, add_principal_error, remove_principal_error, keys_find,
  key_add, key_update, key_remove,
}
use shishi.Shisa.File.{
  ShisaPrincipal, enumerate_realms, enumerate_principals, principal_find, principal_update,
  realm_or_principal_add, realm_or_principal_remove,
}

pub record Backend (S : Type 0) : Type 0 where
  pub enumerate_realms : S → ShisaRc × List Bytes
  pub enumerate_principals : Bytes → S → ShisaRc × List Bytes
  pub principal_find : Bytes → Bytes → S → ShisaRc × Option ShisaPrincipal
  pub principal_update : Bytes → Bytes → ShisaPrincipal → S → ShisaRc × S
  pub principal_add :
      Bytes → Option Bytes → Option ShisaPrincipal → Option ShisaKey → S → Option (ShisaRc × S)
  pub principal_remove : Bytes → Option Bytes → S → ShisaRc × S
  pub keys_find : Bytes → Bytes → Option ShisaKey → S → Option (ShisaRc × List ShisaKey)
  pub key_add : Bytes → Bytes → Option ShisaKey → S → Option (ShisaRc × S)
  pub key_update : Bytes → Bytes → ShisaKey → ShisaKey → S → ShisaRc × S
  pub key_remove : Bytes → Bytes → Option ShisaKey → S → Option (ShisaRc × S)

-- The database in files at a path: the entry of _shisa_backends
abbrev pub file_backend : (x : System) → ℕ → Bytes → Backend x.State
file_backend x fuel path = record {
  enumerate_realms = enumerate_realms x path;
  enumerate_principals = enumerate_principals x path;
  principal_find = principal_find x path;
  principal_update = principal_update x path;
  principal_add = realm_or_principal_add x path fuel;
  principal_remove = realm_or_principal_remove x path;
  keys_find = keys_find x path;
  key_add = key_add x path fuel;
  key_update = key_update x path;
  key_remove = key_remove x path;
}

-- `if (rc != SHISA_OK) return rc;` in a loop over the databases
abbrev pub if_ok : {A : Type 0} → ShisaRc → A → A → A
if_ok shisa_ok go_on stop = go_on
if_ok _ go_on stop = stop

-- `if (rc == SHISA_OK || (rc != SHISA_OK && rc != SHISA_NO_PRINCIPAL)) return rc;`
abbrev pub if_no_principal : {A : Type 0} → ShisaRc → A → A → A
if_no_principal no_principal go_on stop = go_on
if_no_principal _ go_on stop = stop

module _ {S : Type 0} where
  -- A database adds its names behind those of the databases in front.
  unfoldable pub append_names :
      (Backend S → ShisaRc × List Bytes) → List (Backend S) → List Bytes → ShisaRc × List Bytes
  append_names list [] names = (shisa_ok, names)
  append_names list (db ∷ dbs) names =
      let r = list db in
      let rest = append_names list dbs (names ++ r.1) in if_ok (r.0) rest (r.0, names ++ r.1)

  unfoldable pub shisa_enumerate_realms : List (Backend S) → S → ShisaRc × List Bytes
  unfolding append_names
  shisa_enumerate_realms dbs s = append_names (λ db. db.enumerate_realms s) dbs []

  unfoldable pub shisa_enumerate_principals : List (Backend S) → Bytes → S → ShisaRc × List Bytes
  unfolding append_names
  shisa_enumerate_principals dbs realm s =
      append_names (λ db. db.enumerate_principals realm s) dbs []

  unfoldable pub shisa_principal_find :
      List (Backend S) → Bytes → Bytes → S → ShisaRc × Option ShisaPrincipal
  shisa_principal_find [] realm principal s = (no_principal, none)
  shisa_principal_find (db ∷ dbs) realm principal s =
      let r = db.principal_find realm principal s in
      let rest = shisa_principal_find dbs realm principal s in if_no_principal (r.0) rest r

  -- The loops of these three return in their first turn.
  unfoldable pub shisa_principal_update :
      List (Backend S) → Bytes → Bytes → ShisaPrincipal → S → ShisaRc × S
  shisa_principal_update [] realm principal ph s = (add_principal_error, s)
  shisa_principal_update (db ∷ dbs) realm principal ph s = db.principal_update realm principal ph s

  unfoldable pub shisa_principal_add :
      List (Backend S)
      → Option Bytes
      → Option Bytes
      → Option ShisaPrincipal
      → Option ShisaKey
      → S
      → Option (ShisaRc × S)
  shisa_principal_add dbs none principal ph key s = some (no_realm, s)
  shisa_principal_add [] (some realm) principal ph key s = some (add_principal_error, s)
  shisa_principal_add (db ∷ dbs) (some realm) principal ph key s =
      db.principal_add realm principal ph key s

  unfoldable pub shisa_principal_remove :
      List (Backend S) → Option Bytes → Option Bytes → S → ShisaRc × S
  shisa_principal_remove dbs none principal s = (no_realm, s)
  shisa_principal_remove [] (some realm) principal s = (remove_principal_error, s)
  shisa_principal_remove (db ∷ dbs) (some realm) principal s = db.principal_remove realm principal s

  -- Each database sets `*keys` and `*nkeys` anew: `keys` is what the one in front left there.
  unfoldable pub keys_find_from :
      List (Backend S)
      → Bytes
      → Bytes
      → Option ShisaKey
      → S
      → List ShisaKey
      → Option (ShisaRc × List ShisaKey)
  keys_find_from [] realm principal hint s keys = some (shisa_ok, keys)
  keys_find_from (db ∷ dbs) realm principal hint s keys =
      elim (db.keys_find realm principal hint s) [
        | none ↦ none
        | some r ↦
            let rest = keys_find_from dbs realm principal hint s (r.1) in if_ok (r.0) rest (some r)
      ]

  unfoldable pub shisa_keys_find :
      List (Backend S) → Bytes → Bytes → Option ShisaKey → S → Option (ShisaRc × List ShisaKey)
  unfolding keys_find_from
  shisa_keys_find dbs realm principal hint s = keys_find_from dbs realm principal hint s []

  -- A change is made in each database until one fails.
  unfoldable pub change_each :
      (Backend S → S → Option (ShisaRc × S)) → List (Backend S) → S → Option (ShisaRc × S)
  change_each change [] s = some (shisa_ok, s)
  change_each change (db ∷ dbs) s = elim (change db s) [
    | none ↦ none
    | some r ↦ let rest = change_each change dbs (r.1) in if_ok (r.0) rest (some r)
  ]

  unfoldable pub shisa_key_add :
      List (Backend S) → Bytes → Bytes → Option ShisaKey → S → Option (ShisaRc × S)
  unfolding change_each
  shisa_key_add dbs realm principal key s =
      change_each (λ db t. db.key_add realm principal key t) dbs s

  unfoldable pub shisa_key_update :
      List (Backend S) → Bytes → Bytes → ShisaKey → ShisaKey → S → Option (ShisaRc × S)
  unfolding change_each
  shisa_key_update dbs realm principal oldkey newkey s =
      change_each (λ db t. some (db.key_update realm principal oldkey newkey t)) dbs s

  unfoldable pub shisa_key_remove :
      List (Backend S) → Bytes → Bytes → Option ShisaKey → S → Option (ShisaRc × S)
  unfolding change_each
  shisa_key_remove dbs realm principal key s =
      change_each (λ db t. db.key_remove realm principal key t) dbs s
