-- ===== src/Tests/Directories.antt =====
-- A file system of three directories, the deepest of which can be made: an instance for the principals
-- of the user database.
use shishi.Base.{
  ◌≡◌, refl, true, false, not, Bool, ◌&&◌, ◌||◌, if◌then◌else◌, [], none, some, Bytes, codes, arith,
  str_equal, eq_of_str_equal,
}
use shishi.Shisa.System.{System, join}
use shishi.Shisa.KeyFiles.{shisa_ok, minus_one}
use shishi.Shisa.File.{principal_add, principal_remove}
use shishi.Shisa.File.Principals.{MakesDirectories, principal_remove-principal_add}

-- "d", "d/A" and, where it has been made, "d/A/u"
abbrev is_directory : Bytes → Bool → Bool
is_directory path made =
    str_equal path (codes "d")
    || (str_equal path (codes "d/A") || (str_equal path (codes "d/A/u") && made))

abbrev directories : System
directories = record {
  State = Bool;
  is_dir = is_directory;
  is_reg = λ path s. false;
  st_atime = λ path s. 0;
  mkdir = λ path s. if str_equal path (codes "d/A/u") && not s then some true else none;
  rmdir = λ path s. none;
  unlink = λ path s. none;
  readdir = λ path s. if is_directory path s then some [] else none;
  areadlink = λ path s. none;
  atol = λ text. 0;
  read_file = λ path s. none;
  write_file = λ path text s. none;
}

only_more : (a b c : Bool) → (a || (b || (c && false))) ≡ true → (a || (b || (c && true))) ≡ true
only_more a b c h = ground arith

-- What mkdir was given where it succeeds
only_made :
    (path : Bytes) (s s' : Bool)
    → directories.mkdir path s ≡ some s'
    → (path ≡ codes "d/A/u") × ((s ≡ false) × (s' ≡ true))
only_made path s s' = go (str_equal path (codes "d/A/u")) s refl
  where
    go :
        (b t : Bool)
        → str_equal path (codes "d/A/u") ≡ b
        → (if b && not t then some true else none) ≡ some s'
        → (path ≡ codes "d/A/u") × ((t ≡ false) × (s' ≡ true))
    go true false q e = (eq_of_str_equal path (codes "d/A/u") q, (refl, cc))
    go true true q e = absurd (cc)
    go false t q e = absurd (cc)

directories-MakesDirectories : MakesDirectories directories
directories-MakesDirectories = record {
  made =
      λ p s s' e. let (path_is, (before, after)) = only_made p s s' e in rw (path_is, after) refl;
  empty = λ p s s' e. let (path_is, _) = only_made p s s' e in rw path_is refl;
  kept = λ p q s s' e h.
      let (path_is, (before, after)) = only_made p s s' e in
      rw after (
        only_more (str_equal q (codes "d")) (str_equal q (codes "d/A"))
          (str_equal q (codes "d/A/u")) (rw before at h));
  listed = λ p s e. rw e refl;
}

added :
    principal_add directories (codes "d") 0 (codes "A") (codes "u") none none false
    ≡ some (shisa_ok, true)
unfolding principal_add shishi.Shisa.System.path2 shishi.Shisa.Filename.escape_filename
    shishi.Shisa.Filename.escape_char shishi.Shisa.Filename.is_plain shishi.Shisa.System.path3
added = refl

principal_remove-principal_add_example :
    principal_remove directories (codes "d") (codes "A") (codes "u") true ≡ (minus_one, true)
principal_remove-principal_add_example =
    principal_remove-principal_add directories directories-MakesDirectories (codes "d") 0
      (codes "A") (codes "u") none false true added
