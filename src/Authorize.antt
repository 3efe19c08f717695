-- ===== src/Authorize.antt =====
-- Authorization of a client for an account: lib/authorize.c, where getpwnam is there. The calls of the
-- C library, and the reading of the client's name in the ticket, are parameters.
pub mod Safe
use shishi.Base.{
  ℕ, ◌%◌, ◌^◌, ◌+◌, Bool, true, false, not, ◌&&◌, ◌||◌, List, [], ◌∷◌, ◌++◌, Option, none, some,
  Bytes, codes, str_equal, leb, ◌==◌, if◌then◌else◌,
}
use shishi.Tkt.{has_bit}

pub record Passwd : Type 0 where
  pub pw_uid : ℕ
  pub pw_dir : Option Bytes

pub record Stat : Type 0 where
  pub st_uid : ℕ
  pub st_mode : ℕ

-- getpwnam, stat, and fopen with getline up to the end of the file: a line is its bytes before a NUL,
-- with the newline, if there is one. strtol gives none where no number is read.
pub record Accounts : Type 0 where
  pub getpwnam : Bytes → Option Passwd
  pub stat : Bytes → Option Stat
  pub getlines : Bytes → Option (List Bytes)
  pub strtol : Bytes → Option ℕ

-- SHISHI_AUTHORIZATION_BASIC and SHISHI_AUTHORIZATION_K5LOGIN
abbrev pub basic : ℕ
basic = 0

abbrev pub k5login : ℕ
k5login = 1

abbrev pub authorize_strcmp : Bytes → Bytes → Bool
authorize_strcmp principal authzname = str_equal principal authzname

-- S_IWGRP and S_IWOTH
abbrev pub s_iwgrp : ℕ
s_iwgrp = 16

abbrev pub s_iwoth : ℕ
s_iwoth = 2

-- The line without its newline
unfoldable pub chomp : Bytes → Bytes
chomp [] = []
chomp (c ∷ line) = let rest = chomp line in if c == 10 then [] else c ∷ rest

-- The loop over the lines
unfoldable pub any_line : Bytes → List Bytes → Bool
unfolding chomp
any_line principal [] = false
any_line principal (line ∷ lines) =
    let rest = any_line principal lines in if str_equal principal (chomp line) then true else rest

-- The file, where it can be opened
unfoldable pub lines_hold : Bytes → Option (List Bytes) → Bool
unfolding any_line
lines_hold principal none = false
lines_hold principal (some lines) = any_line principal lines

module _ (x : Accounts) where
  -- The owner is the account's user or root, and neither the group nor the world may write.
  unfoldable pub stat_holds : Bytes → ℕ → Bytes → Option Stat → Bool
  unfolding lines_hold
  stat_holds principal pw_uid ficname none = false
  stat_holds principal pw_uid ficname (some sta) =
      if not (sta.st_uid == pw_uid) && not (sta.st_uid == 0)
      then false
      else if has_bit s_iwgrp sta.st_mode || has_bit s_iwoth sta.st_mode
      then false
      else lines_hold principal (x.getlines ficname)

  unfoldable pub home_holds : Bytes → ℕ → Option Bytes → Bool
  unfolding stat_holds
  home_holds principal pw_uid none = false
  home_holds principal pw_uid (some dir) =
      let ficname = dir ++ (b'/' ∷ codes ".k5login") in
      stat_holds principal pw_uid ficname (x.stat ficname)

  unfoldable pub passwd_holds : Bytes → Option Passwd → Bool
  unfolding home_holds
  passwd_holds principal none = false
  passwd_holds principal (some pwd) = home_holds principal pwd.pw_uid pwd.pw_dir

  unfoldable pub authorize_k5login : Bytes → Bytes → Bool
  unfolding passwd_holds
  authorize_k5login principal authzname = passwd_holds principal (x.getpwnam authzname)

  -- A type of authorization; unknown ones are passed over.
  unfoldable pub grants : Bytes → Bytes → Bytes → ℕ → Bool
  unfolding authorize_k5login
  grants client clientrealm authzname type =
      if type == basic
      then authorize_strcmp client authzname
      else if type == k5login
      then authorize_k5login clientrealm authzname
      else false

  -- The loop over the types
  unfoldable pub any_grants : Bytes → Bytes → Bytes → List ℕ → Bool
  unfolding grants
  any_grants client clientrealm authzname [] = false
  any_grants client clientrealm authzname (type ∷ types) =
      let rest = any_grants client clientrealm authzname types in
      if grants client clientrealm authzname type then true else rest

  -- The client and the client with its realm, as they are read in the ticket
  unfoldable pub authorized_p : Option Bytes → Option Bytes → List ℕ → Bytes → Bool
  unfolding any_grants
  authorized_p none clientrealm types authzname = false
  authorized_p (some client) none types authzname = false
  authorized_p (some client) (some clientrealm) types authzname =
      any_grants client clientrealm authzname types

-- strcasecmp on ASCII
abbrev pub lower : ℕ → ℕ
lower c = if leb 65 c && leb c 90 then c + 32 else c

unfoldable pub strcase_equal : Bytes → Bytes → Bool
strcase_equal [] [] = true
strcase_equal [] (d ∷ ds) = false
strcase_equal (c ∷ cs) [] = false
strcase_equal (c ∷ cs) (d ∷ ds) = (lower c == lower d) && strcase_equal cs ds

-- The number, or the type of the alias; the int -1 is the word 2 ^ 32 - 1.
unfoldable pub authorization_parse : Accounts → Bytes → ℕ
unfolding strcase_equal
authorization_parse x authorization = elim (x.strtol authorization) [
  | some i ↦ i % 2 ^ 32
  | none ↦
      if strcase_equal authorization (codes "basic")
      then basic
      else if strcase_equal authorization (codes "k5login")
      then k5login
      else 0xFFFFFFFF
]
