-- ===== src/Shisa/File.antt =====
-- The realms and the principals of the database in files: db/file.c over the functions of
-- db/fileutil.c. The options of a database, which nothing reads, are left out of struct Shisa_file.
pub mod Principals
use shishi.Base.{
  ℕ, Bool, true, false, not, List, [], ◌∷◌, Option, none, some, Bytes, codes, if◌then◌else◌,
}
use shishi.Shisa.Key.{ShisaKey}
use shishi.Shisa.System.{
  System, isdir2, isdir3, isfile4, mkdir2, mkdir3, rmdir2, rmdir3, rmdir4, rm5, mtime4, uint32link4,
  ls4, lsdir, lsdir2,
}
use shishi.Shisa.KeyFiles.{
  ShisaRc, shisa_ok, enumerate_realm_error, enumerate_principal_error, no_realm, no_principal,
  add_realm_exists, add_realm_error, remove_realm_nonempty, remove_realm_error,
  add_principal_exists, add_principal_error, remove_principal_error, minus_one, keys_name, or_rc,
  key_add,
}

pub record ShisaPrincipal : Type 0 where
  pub notusedbefore : Option ℕ
  pub isdisabled : Bool
  pub kvno : ℕ
  pub lastinitialtgt : Option ℕ
  pub lastinitialrequest : Option ℕ
  pub lasttgt : Option ℕ
  pub lastrenewal : Option ℕ
  pub passwordexpire : Option ℕ
  pub accountexpire : Option ℕ

module _ (x : System) (path : Bytes) where
  unfoldable pub enumerate_realms : x.State → ShisaRc × List Bytes
  enumerate_realms s = elim (lsdir x path s) [
    | none ↦ (enumerate_realm_error, [])
    | some realms ↦ (shisa_ok, realms)
  ]

  unfoldable pub enumerate_principals : Bytes → x.State → ShisaRc × List Bytes
  enumerate_principals realm s =
      if isdir2 x path realm s
      then elim (lsdir2 x path realm s) [
        | none ↦ (enumerate_principal_error, [])
        | some principals ↦ (shisa_ok, principals)
      ]
      else (no_realm, [])

  unfoldable pub principal_find : Bytes → Bytes → x.State → ShisaRc × Option ShisaPrincipal
  principal_find realm principal s =
      if isdir3 x path realm principal s
      then (
        shisa_ok,
        some record {
          notusedbefore = mtime4 x path realm principal (codes "validfrom.stamp") s;
          isdisabled = isfile4 x path realm principal (codes "disabled.flag") s;
          kvno = uint32link4 x path realm principal (codes "latest.key") s;
          lastinitialtgt = mtime4 x path realm principal (codes "lastinitaltgt.stamp") s;
          lastinitialrequest = mtime4 x path realm principal (codes "lastinitial.stamp") s;
          lasttgt = mtime4 x path realm principal (codes "lasttgt.stamp") s;
          lastrenewal = mtime4 x path realm principal (codes "lastrenewal.stamp") s;
          passwordexpire = mtime4 x path realm principal (codes "passwordexpire.stamp") s;
          accountexpire = mtime4 x path realm principal (codes "accountexpire.stamp") s;
        },
      )
      else (no_principal, none)

  unfoldable pub realm_add : Bytes → x.State → ShisaRc × x.State
  realm_add realm s =
      if isdir2 x path realm s
      then (add_realm_exists, s)
      else or_rc (mkdir2 x path realm s) add_realm_error s

  unfoldable pub principal_update : Bytes → Bytes → ShisaPrincipal → x.State → ShisaRc × x.State
  principal_update realm principal ph s = (shisa_ok, s)

  -- The return codes of shisa_file_principal_update and shisa_file_key_add are not looked at.
  unfoldable pub add_first_key :
      ℕ → Bytes → Bytes → Option ShisaKey → x.State → Option (ShisaRc × x.State)
  unfolding key_add
  add_first_key fuel realm principal none s = some (shisa_ok, s)
  add_first_key fuel realm principal (some key) s =
      elim (key_add x path fuel realm principal (some key) s) [
        | none ↦ none
        | some r ↦ some (shisa_ok, r.1)
      ]

  unfoldable pub principal_add :
      ℕ
      → Bytes
      → Bytes
      → Option ShisaPrincipal
      → Option ShisaKey
      → x.State
      → Option (ShisaRc × x.State)
  unfolding add_first_key
  principal_add fuel realm principal ph key s =
      if not (isdir2 x path realm s)
      then some (no_realm, s)
      else if isdir3 x path realm principal s
      then some (add_principal_exists, s)
      else elim (mkdir3 x path realm principal s) [
        | none ↦ some (add_principal_error, s)
        | some s' ↦ add_first_key fuel realm principal key s'
      ]

  -- shisa_file_principal_add: a principal, or the realm where that is NULL
  unfoldable pub realm_or_principal_add :
      ℕ
      → Bytes
      → Option Bytes
      → Option ShisaPrincipal
      → Option ShisaKey
      → x.State
      → Option (ShisaRc × x.State)
  unfolding realm_add principal_add
  realm_or_principal_add fuel realm none ph key s = some (realm_add realm s)
  realm_or_principal_add fuel realm (some principal) ph key s =
      principal_add fuel realm principal ph key s

  -- What is done with the principals that are enumerated in a realm
  unfoldable pub remove_empty : Bytes → ShisaRc × List Bytes → x.State → ShisaRc × x.State
  remove_empty realm (shisa_ok, []) s = or_rc (rmdir2 x path realm s) remove_realm_error s
  remove_empty realm (shisa_ok, principal ∷ principals) s = (remove_realm_nonempty, s)
  remove_empty realm (rc, principals) s = (rc, s)

  unfoldable pub realm_remove : Bytes → x.State → ShisaRc × x.State
  unfolding remove_empty enumerate_principals
  realm_remove realm s =
      if isdir2 x path realm s
      then remove_empty realm (enumerate_principals realm s) s
      else (no_realm, s)

  -- The loop over the files, which goes on where one cannot be removed
  unfoldable pub remove_files : Bytes → Bytes → List Bytes → x.State → x.State
  remove_files realm principal [] s = s
  remove_files realm principal (file ∷ files) s =
      remove_files realm principal files
        (elim (rm5 x path realm principal keys_name file s) [ none ↦ s | some s' ↦ s' ])

  unfoldable pub remove_keys : Bytes → Bytes → x.State → ShisaRc × x.State
  unfolding remove_files
  remove_keys realm principal s = elim (ls4 x path realm principal keys_name s) [
    | none ↦ (minus_one, s)
    | some files ↦
        let s' = remove_files realm principal files s in
        or_rc (rmdir4 x path realm principal keys_name s') minus_one s'
  ]

  unfoldable pub remove_emptied : Bytes → Bytes → ShisaRc × x.State → ShisaRc × x.State
  remove_emptied realm principal (shisa_ok, s) =
      or_rc (rmdir3 x path realm principal s) remove_principal_error s
  remove_emptied realm principal (rc, s) = (rc, s)

  unfoldable pub principal_remove : Bytes → Bytes → x.State → ShisaRc × x.State
  unfolding remove_keys remove_emptied
  principal_remove realm principal s =
      if not (isdir2 x path realm s)
      then (no_realm, s)
      else if not (isdir3 x path realm principal s)
      then (no_principal, s)
      else remove_emptied realm principal (remove_keys realm principal s)

  unfoldable pub realm_or_principal_remove : Bytes → Option Bytes → x.State → ShisaRc × x.State
  unfolding realm_remove principal_remove
  realm_or_principal_remove realm none s = realm_remove realm s
  realm_or_principal_remove realm (some principal) s = principal_remove realm principal s
