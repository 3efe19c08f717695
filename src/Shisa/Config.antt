-- ===== src/Shisa/Config.antt =====
-- The configuration of the databases: db/config.c, with _shisa_find_backend of db/db.c and
-- shisa_file_init and shisa_file_cfg of db/file.c. The test of a directory and getsubopt of the C
-- library are parameters. What the options set is left out, since nothing reads it. A slot of the array of databases
-- holds the path of a database in files; `none` is memory that nothing has been stored in.
pub mod Slots
use shishi.Base.{
  ℕ, Bool, true, false, ◌&&◌, ◌||◌, List, [], ◌∷◌, ◌++◌, Option, none, some, Bytes, codes,
  str_equal, take, drop, ltb, length, leb, ◌==◌, if◌then◌else◌,
}
use shishi.Shisa.KeyFiles.{ShisaRc, shisa_ok, open_error, cfg_syntax_error}

-- A text cut at the first byte of a kind: strchr
unfoldable pub cut : ℕ → Bytes → Bytes × Option Bytes
cut stop [] = ([], none)
cut stop (c ∷ cs) = let r = cut stop cs in if c == stop then ([], some cs) else (c ∷ r.0, r.1)

abbrev pub cut_option : Option Bytes → Option Bytes × Option Bytes
cut_option none = (none, none)
cut_option (some text) = let r = cut b' ' text in (some (r.0), r.1)

-- `dbh->dbs = xrealloc (dbh->dbs, ++dbh->ndbs * ...); dbh->dbs->backend = backend;`: the array grows
-- at its end, and the first slot is set.
unfoldable pub store_db : Bytes → List (Option Bytes) → List (Option Bytes)
store_db db [] = some db ∷ []
store_db db (slot ∷ slots) = some db ∷ (slots ++ none ∷ [])

abbrev pub has_prefix : Bytes → Bytes → Bool
has_prefix [] text = true
has_prefix (c ∷ cs) [] = false
has_prefix (c ∷ cs) (d ∷ ds) = (c == d) && has_prefix cs ds

-- The end of a line is taken off: '\n' and '\r'.
abbrev pub is_end : ℕ → Bool
is_end c = (c == 10) || (c == 13)

abbrev pub is_blank : ℕ → Bool
is_blank c = (c == 32) || ((c == 9) || is_end c)

unfoldable pub strip_end : Bytes → Bytes
strip_end [] = []
strip_end (c ∷ cs) =
    let rest = strip_end cs in
    elim rest [ [] ↦ if is_end c then [] else c ∷ [] | d ∷ ds ↦ c ∷ d ∷ ds ]

unfoldable pub skip_blanks : Bytes → Bytes
skip_blanks [] = []
skip_blanks (c ∷ cs) = elim (is_blank c) [ true ↦ skip_blanks cs | false ↦ c ∷ cs ]

-- `*q = '='` at the first space, where no '=' stands in front of it
unfoldable pub with_equals : Bytes → Bytes
with_equals [] = []
with_equals (c ∷ cs) =
    let rest = with_equals cs in
    if c == b' ' then b'=' ∷ cs else if c == b'=' then c ∷ cs else c ∷ rest

-- What comes behind a line: the next lines, unless the line is refused
abbrev pub after_cfg :
    (List (Option Bytes) → ShisaRc × List (Option Bytes))
    → ShisaRc × List (Option Bytes)
    → ShisaRc × List (Option Bytes)
after_cfg again (shisa_ok, slots) = again slots
after_cfg again (rc, slots) = (rc, slots)

-- A line without its end and the blanks in front of it: empty lines and comments are passed over.
abbrev pub cfg_text :
    (List (Option Bytes) → ShisaRc × List (Option Bytes))
    → (Bytes → List (Option Bytes) → ShisaRc × List (Option Bytes))
    → Bytes
    → List (Option Bytes)
    → ShisaRc × List (Option Bytes)
cfg_text again cfg [] slots = again slots
cfg_text again cfg (c ∷ cs) slots = elim (c == b'#') [
  | true ↦ again slots
  | false ↦ after_cfg again (cfg (c ∷ cs) slots)
]

-- The loop over what getsubopt returns: READ_ONLY_OPTION is 0, ALLOW_CREATE_OPTION is 1.
unfoldable pub file_options : List ℕ → ShisaRc
file_options [] = shisa_ok
file_options (option ∷ options) =
    let rest = file_options options in
    if (option == 0) || (option == 1) then rest else cfg_syntax_error

-- `getsubopts` gives what getsubopt returns for a text, call by call, up to the text's end.
module _ (is_dir : Bytes → Bool) (getsubopts : Bytes → List ℕ) where
  unfoldable pub file_cfg : Option Bytes → ShisaRc
  unfolding file_options
  file_cfg none = shisa_ok
  file_cfg (some options) = file_options (getsubopts options)

  unfoldable pub file_init : Option Bytes → Option Bytes → ShisaRc
  unfolding file_cfg
  file_init none options = open_error
  file_init (some location) options = if is_dir location then file_cfg options else open_error

  unfoldable pub init_db :
      Option Bytes → ShisaRc → List (Option Bytes) → ShisaRc × List (Option Bytes)
  unfolding store_db
  init_db (some location) shisa_ok slots = (shisa_ok, store_db location slots)
  init_db location rc slots = (rc, slots)

  -- "TYPE[ LOCATION[ PARAMETER]]", of the one type "file"
  unfoldable pub shisa_cfg_db : Bytes → List (Option Bytes) → ShisaRc × List (Option Bytes)
  unfolding cut file_init init_db
  shisa_cfg_db value slots =
      let db = cut b' ' value in
      let location = cut_option (db.1) in
      if str_equal (db.0) (codes "file")
      then init_db (location.0) (file_init (location.0) (location.1)) slots
      else (cfg_syntax_error, slots)

  unfoldable pub shisa_cfg : Option Bytes → List (Option Bytes) → ShisaRc × List (Option Bytes)
  unfolding shisa_cfg_db
  shisa_cfg none slots = (shisa_ok, slots)
  shisa_cfg (some option) slots =
      if has_prefix (codes "db=") option || has_prefix (codes "db ") option
      then shisa_cfg_db (drop 3 option) slots
      else (cfg_syntax_error, slots)

  -- The loop over the lines of the file, up to a read that fails
  unfoldable pub cfg_lines : List Bytes → List (Option Bytes) → ShisaRc × List (Option Bytes)
  unfolding shisa_cfg strip_end skip_blanks with_equals
  cfg_lines [] slots = (shisa_ok, slots)
  cfg_lines (line ∷ lines) slots =
      cfg_text (cfg_lines lines) (λ text. shisa_cfg (some (with_equals text)))
        (skip_blanks (strip_end line)) slots
