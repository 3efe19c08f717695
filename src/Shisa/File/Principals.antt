-- ===== src/Shisa/File/Principals.antt =====
-- A principal without keys in the database of db/file.c.
use shishi.Base.{ℕ, Bool, true, false, not, Option, none, some, Bytes, if◌then◌else◌, ◌≡◌, refl}
use shishi.Shisa.System.{System, join, path2, path3, path4, isdir2, isdir3, mkdir3, ls}
use shishi.Shisa.KeyFiles.{
  ShisaRc, shisa_ok, minus_one, no_realm, add_principal_exists, add_principal_error, keys_name,
}
use shishi.Shisa.File.{
  ShisaPrincipal, add_first_key, principal_add, remove_keys, remove_emptied, principal_remove,
}

-- What mkdir and readdir promise: the new directory is one, and is empty, so it has no directory of
-- keys; what was a directory stays one; only a directory is listed.
pub record MakesDirectories (x : System) : Type 0 where
  pub made : (p : Bytes) (s s' : x.State) → x.mkdir p s ≡ some s' → x.is_dir p s' ≡ true
  pub empty :
      (p : Bytes) (s s' : x.State) → x.mkdir p s ≡ some s' → x.is_dir (join p keys_name) s' ≡ false
  pub kept :
      (p q : Bytes) (s s' : x.State)
      → x.mkdir p s ≡ some s'
      → x.is_dir q s ≡ true
      → x.is_dir q s' ≡ true
  pub listed : (p : Bytes) (s : x.State) → x.is_dir p s ≡ false → x.readdir p s ≡ none

module _ (x : System) (laws : MakesDirectories x) (path : Bytes) where
  -- The addition of a principal without a key, by its three tests
  abbrev addition : x.State → Bool → Bool → Option x.State → Option (ShisaRc × x.State)
  addition s b c m =
      if not b
      then some (no_realm, s)
      else if c
      then some (add_principal_exists, s)
      else elim m [ none ↦ some (add_principal_error, s) | some t ↦ some (shisa_ok, t) ]

  -- What an addition that succeeds went through
  added :
      (fuel : ℕ) (realm principal : Bytes) (ph : Option ShisaPrincipal) (s s' : x.State)
      → principal_add x path fuel realm principal ph none s ≡ some (shisa_ok, s')
      → (isdir2 x path realm s ≡ true)
        × (isdir3 x path realm principal s ≡ false)
        × (mkdir3 x path realm principal s ≡ some s')
  unfolding principal_add add_first_key
  added fuel realm principal ph s s' =
      go (isdir2 x path realm s) (isdir3 x path realm principal s) (mkdir3 x path realm principal s)
    where
      go :
          (b c : Bool) (m : Option x.State)
          → addition s b c m ≡ some (shisa_ok, s')
          → (b ≡ true) × (c ≡ false) × (m ≡ some s')
      go false c m e = absurd (cc)
      go true true m e = absurd (cc)
      go true false none e = absurd (cc)
      go true false (some t) e = (refl, refl, cc)

  -- A principal that `shisa_file_principal_add` has added without a key cannot be removed:
  -- `shisa_file_principal_remove` returns -1, the code of the missing directory of keys, and the
  -- state stays. The conditions: what mkdir makes is an empty directory, what was a directory
  -- stays one, and only a directory is listed.
  pub principal_remove-principal_add :
      (fuel : ℕ) (realm principal : Bytes) (ph : Option ShisaPrincipal) (s s' : x.State)
      → principal_add x path fuel realm principal ph none s ≡ some (shisa_ok, s')
      → principal_remove x path realm principal s' ≡ (minus_one, s')
  unfolding principal_remove remove_keys remove_emptied path3 path4 ls
  principal_remove-principal_add fuel realm principal ph s s' e =
      let (realm_is, fresh, m) = added fuel realm principal ph s s' e in
      let p3 = path3 path realm principal in
      let realm_stays = laws.kept p3 (path2 path realm) s s' m realm_is in
      let unlisted = laws.listed (join p3 keys_name) s' (laws.empty p3 s s' m) in
      rw (realm_stays, laws.made p3 s s' m, remove_keys, unlisted)
