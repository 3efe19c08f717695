-- ===== src/Shisa/System.antt =====
-- The files of the user database: the functions of db/fileutil.c over the calls of the C library that
-- they make, which are a parameter. A path is the list of its bytes, and perror is left out.
use shishi.Base.{
  ℕ, Bool, true, false, not, ◌||◌, List, [], ◌∷◌, ◌++◌, Option, none, some, Bytes, str_equal,
  if◌then◌else◌,
}
use shishi.Shisa.Filename.{escape_filename, unescape_filename}

-- stat, mkdir, rmdir, unlink, readdir from one end to the other, areadlink, atol, and fopen with the
-- reads or writes up to fclose. A call that fails leaves the state.
pub record System : Type 1 where
  pub State : Type 0
  pub is_dir : Bytes → State → Bool
  pub is_reg : Bytes → State → Bool
  pub st_atime : Bytes → State → ℕ
  pub mkdir : Bytes → State → Option State
  pub rmdir : Bytes → State → Option State
  pub unlink : Bytes → State → Option State
  pub readdir : Bytes → State → Option (List Bytes)
  pub areadlink : Bytes → State → Option Bytes
  pub atol : Bytes → ℕ
  pub read_file : Bytes → State → Option Bytes
  pub write_file : Bytes → Bytes → State → Option State

-- "%s/%s" and so on, with the realm's and the principal's name escaped
abbrev pub join : Bytes → Bytes → Bytes
join path name = path ++ (b'/' ∷ name)

unfoldable pub path2 : Bytes → Bytes → Bytes
path2 path1 realm = join path1 (escape_filename realm)

unfoldable pub path3 : Bytes → Bytes → Bytes → Bytes
unfolding path2
path3 path1 realm principal = join (path2 path1 realm) (escape_filename principal)

unfoldable pub path4 : Bytes → Bytes → Bytes → Bytes → Bytes
unfolding path3
path4 path1 realm principal name = join (path3 path1 realm principal) name

unfoldable pub path5 : Bytes → Bytes → Bytes → Bytes → Bytes → Bytes
unfolding path4
path5 path1 realm principal name4 name5 = join (path4 path1 realm principal name4) name5

module _ (x : System) where
  abbrev pub isdir2 : Bytes → Bytes → x.State → Bool
  isdir2 path1 realm = x.is_dir (path2 path1 realm)

  abbrev pub isdir3 : Bytes → Bytes → Bytes → x.State → Bool
  isdir3 path1 realm principal = x.is_dir (path3 path1 realm principal)

  abbrev pub isdir4 : Bytes → Bytes → Bytes → Bytes → x.State → Bool
  isdir4 path1 realm principal name = x.is_dir (path4 path1 realm principal name)

  abbrev pub isfile4 : Bytes → Bytes → Bytes → Bytes → x.State → Bool
  isfile4 path1 realm principal name = x.is_reg (path4 path1 realm principal name)

  abbrev pub mkdir2 : Bytes → Bytes → x.State → Option x.State
  mkdir2 path1 realm = x.mkdir (path2 path1 realm)

  abbrev pub mkdir3 : Bytes → Bytes → Bytes → x.State → Option x.State
  mkdir3 path1 realm principal = x.mkdir (path3 path1 realm principal)

  abbrev pub mkdir4 : Bytes → Bytes → Bytes → Bytes → x.State → Option x.State
  mkdir4 path1 realm principal name = x.mkdir (path4 path1 realm principal name)

  abbrev pub rmdir2 : Bytes → Bytes → x.State → Option x.State
  rmdir2 path1 realm = x.rmdir (path2 path1 realm)

  abbrev pub rmdir3 : Bytes → Bytes → Bytes → x.State → Option x.State
  rmdir3 path1 realm principal = x.rmdir (path3 path1 realm principal)

  abbrev pub rmdir4 : Bytes → Bytes → Bytes → Bytes → x.State → Option x.State
  rmdir4 path1 realm principal name = x.rmdir (path4 path1 realm principal name)

  abbrev pub rm5 : Bytes → Bytes → Bytes → Bytes → Bytes → x.State → Option x.State
  rm5 path1 realm principal name4 name5 = x.unlink (path5 path1 realm principal name4 name5)

  -- `none` is (time_t) -1.
  unfoldable pub mtime : Bytes → x.State → Option ℕ
  mtime file s = if x.is_reg file s then some (x.st_atime file s) else none

  abbrev pub mtime4 : Bytes → Bytes → Bytes → Bytes → x.State → Option ℕ
  mtime4 path1 realm principal name = mtime (path4 path1 realm principal name)

  unfoldable pub uint32link : Bytes → x.State → ℕ
  uint32link file s = elim (x.areadlink file s) [ none ↦ 0 | some linkname ↦ x.atol linkname ]

  abbrev pub uint32link4 : Bytes → Bytes → Bytes → Bytes → x.State → ℕ
  uint32link4 path1 realm principal name = uint32link (path4 path1 realm principal name)

  -- "." and ".."
  abbrev pub is_dots : Bytes → Bool
  is_dots name = str_equal name (b'.' ∷ []) || str_equal name (b'.' ∷ b'.' ∷ [])

  -- The loop of ls_1 over the directory's entries
  unfoldable pub ls_names : Bytes → Bool → x.State → List Bytes → List Bytes
  ls_names path onlydir s [] = []
  ls_names path onlydir s (d_name ∷ names) =
      let rest = ls_names path onlydir s names in
      if is_dots d_name
      then rest
      else if not onlydir || x.is_dir (join path d_name) s
      then unescape_filename d_name ∷ rest
      else rest

  -- `none` is the return code -1.
  unfoldable pub ls : Bytes → Bool → x.State → Option (List Bytes)
  unfolding ls_names
  ls path onlydir s = elim (x.readdir path s) [
    | none ↦ none
    | some names ↦ some (ls_names path onlydir s names)
  ]

  abbrev pub ls4 : Bytes → Bytes → Bytes → Bytes → x.State → Option (List Bytes)
  ls4 path1 realm principal name = ls (path4 path1 realm principal name) false

  abbrev pub lsdir : Bytes → x.State → Option (List Bytes)
  lsdir path = ls path true

  abbrev pub lsdir2 : Bytes → Bytes → x.State → Option (List Bytes)
  lsdir2 path1 realm = ls (path2 path1 realm) true
