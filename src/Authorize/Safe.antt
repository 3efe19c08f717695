-- ===== src/Authorize/Safe.antt =====
-- Whom lib/authorize.c lets in.
use shishi.Base.{
  ℕ, Bool, true, false, List, [], ◌∷◌, ◌++◌, Option, none, some, Bytes, codes, str_equal,
  eq_of_str_equal, ◌==◌, not, ◌&&◌, ◌||◌, if◌then◌else◌, ◌≡◌, refl, ◌⊎◌, inl, inr, arith,
  Bool-cases,
}
use shishi.Tkt.{has_bit}
use shishi.Authorize.{
  Passwd, Stat, Accounts, basic, k5login, chomp, any_line, lines_hold, stat_holds, home_holds,
  passwd_holds, authorize_k5login, grants, any_grants, authorized_p, s_iwgrp, s_iwoth,
}

-- A principal that stands in a line
abbrev pub IsLine : Bytes → List Bytes → Type 0
IsLine principal [] = ⊥
IsLine principal (line ∷ lines) = (principal ≡ chomp line) ⊎ IsLine principal lines

abbrev pub IsOneOf : ℕ → List ℕ → Type 0
IsOneOf type [] = ⊥
IsOneOf type (t ∷ types) = (t ≡ type) ⊎ IsOneOf type types

any_line-IsLine :
    (principal : Bytes) (lines : List Bytes)
    → any_line principal lines ≡ true
    → IsLine principal lines
unfolding any_line
any_line-IsLine principal [] h = cc
any_line-IsLine principal (line ∷ lines) h = elim (Bool-cases (str_equal principal (chomp line))) [
  | inl q ↦ inl (eq_of_str_equal principal (chomp line) q)
  | inr q ↦ inr (any_line-IsLine principal lines (rw (q, any_line) at h))
]

module _ (x : Accounts) where
  -- The account has a home with a .k5login that is its user's or root's, that neither the group nor the
  -- world may write, and that has the principal in a line.
  pub record IsListed (principal authzname : Bytes) : Type 0 where
    pub pwd : Passwd
    pub dir : Bytes
    pub sta : Stat
    pub lines : List Bytes
    pub known : x.getpwnam authzname ≡ some pwd
    pub home : pwd.pw_dir ≡ some dir
    pub found : x.stat (dir ++ (b'/' ∷ codes ".k5login")) ≡ some sta
    pub owned : (sta.st_uid ≡ pwd.pw_uid) ⊎ (sta.st_uid ≡ 0)
    pub group_safe : has_bit s_iwgrp sta.st_mode ≡ false
    pub world_safe : has_bit s_iwoth sta.st_mode ≡ false
    pub opened : x.getlines (dir ++ (b'/' ∷ codes ".k5login")) ≡ some lines
    pub listed : IsLine principal lines

module _ (x : Accounts) where
  -- What a file that lets a principal in is like
  stat_holds-lines :
      (principal ficname : Bytes) (pw_uid : ℕ) (sta : Stat)
      → stat_holds x principal pw_uid ficname (some sta) ≡ true
      → ((sta.st_uid ≡ pw_uid) ⊎ (sta.st_uid ≡ 0))
        × (has_bit s_iwgrp sta.st_mode ≡ false)
        × (has_bit s_iwoth sta.st_mode ≡ false)
        × (lines_hold principal (x.getlines ficname) ≡ true)
  unfolding stat_holds
  stat_holds-lines principal ficname pw_uid sta =
      go (sta.st_uid == pw_uid) (sta.st_uid == 0) refl refl (has_bit s_iwgrp sta.st_mode) refl
        (has_bit s_iwoth sta.st_mode) refl
    where
      go :
          (a b : Bool)
          → (sta.st_uid == pw_uid) ≡ a
          → (sta.st_uid == 0) ≡ b
          → (g : Bool) → has_bit s_iwgrp sta.st_mode ≡ g
          → (w : Bool) → has_bit s_iwoth sta.st_mode ≡ w
          → (if not a && not b
              then false
              else if g || w
              then false
              else lines_hold principal (x.getlines ficname))
            ≡ true
          → ((sta.st_uid ≡ pw_uid) ⊎ (sta.st_uid ≡ 0))
            × (has_bit s_iwgrp sta.st_mode ≡ false)
            × (has_bit s_iwoth sta.st_mode ≡ false)
            × (lines_hold principal (x.getlines ficname) ≡ true)
      go true b p q false r false s h = (inl (ground arith), r, s, h)
      go false true p q false r false s h = (inr (ground arith), r, s, h)
      go false false p q g r w s h = cc
      go true b p q true r w s h = cc
      go true b p q false r true s h = cc
      go false true p q true r w s h = cc
      go false true p q false r true s h = cc

  authorize_k5login-IsListed :
      (principal authzname : Bytes)
      → authorize_k5login x principal authzname ≡ true
      → IsListed x principal authzname
  unfolding authorize_k5login passwd_holds home_holds stat_holds lines_hold
  authorize_k5login-IsListed principal authzname h = by_passwd (x.getpwnam authzname) refl h
    where
      by_lines :
          (pwd : Passwd) (dir : Bytes) (sta : Stat) (ls : Option (List Bytes))
          → x.getpwnam authzname ≡ some pwd
          → pwd.pw_dir ≡ some dir
          → x.stat (dir ++ (b'/' ∷ codes ".k5login")) ≡ some sta
          → x.getlines (dir ++ (b'/' ∷ codes ".k5login")) ≡ ls
          → ((sta.st_uid ≡ pwd.pw_uid) ⊎ (sta.st_uid ≡ 0))
            × (has_bit s_iwgrp sta.st_mode ≡ false)
            × (has_bit s_iwoth sta.st_mode ≡ false)
            × (lines_hold principal ls ≡ true)
          → IsListed x principal authzname
      by_lines pwd dir sta none k m f o (a, b, c, d) = cc
      by_lines pwd dir sta (some ls) k m f o (a, b, c, d) = record {
        pwd = pwd;
        dir = dir;
        sta = sta;
        lines = ls;
        known = k;
        home = m;
        found = f;
        owned = a;
        group_safe = b;
        world_safe = c;
        opened = o;
        listed = any_line-IsLine principal ls d;
      }

      by_stat :
          (pwd : Passwd) (dir : Bytes) (o : Option Stat)
          → x.getpwnam authzname ≡ some pwd
          → pwd.pw_dir ≡ some dir
          → x.stat (dir ++ (b'/' ∷ codes ".k5login")) ≡ o
          → stat_holds x principal pwd.pw_uid (dir ++ (b'/' ∷ codes ".k5login")) o ≡ true
          → IsListed x principal authzname
      by_stat pwd dir none k m f h = cc
      by_stat pwd dir (some sta) k m f h =
          by_lines pwd dir sta (x.getlines (dir ++ (b'/' ∷ codes ".k5login"))) k m f refl
            (stat_holds-lines principal (dir ++ (b'/' ∷ codes ".k5login")) pwd.pw_uid sta h)

      by_home :
          (pwd : Passwd) (o : Option Bytes)
          → x.getpwnam authzname ≡ some pwd
          → pwd.pw_dir ≡ o
          → home_holds x principal pwd.pw_uid o ≡ true
          → IsListed x principal authzname
      by_home pwd none k m h = cc
      by_home pwd (some dir) k m h =
          by_stat pwd dir (x.stat (dir ++ (b'/' ∷ codes ".k5login"))) k m refl h

      by_passwd :
          (o : Option Passwd)
          → x.getpwnam authzname ≡ o
          → passwd_holds x principal o ≡ true
          → IsListed x principal authzname
      by_passwd none k h = cc
      by_passwd (some pwd) k h = by_home pwd pwd.pw_dir k refl h

  -- Who is let in: by the type "basic" the client whose name is the account's, and by "k5login" one
  -- that the account lists.
  abbrev pub IsAuthorized : Bytes → Bytes → List ℕ → Bytes → Type 0
  IsAuthorized client clientrealm types authzname =
      (IsOneOf basic types × (client ≡ authzname))
      ⊎ (IsOneOf k5login types × IsListed x clientrealm authzname)

  grants-IsAuthorized :
      (client clientrealm authzname : Bytes) (type : ℕ)
      → grants x client clientrealm authzname type ≡ true
      → ((type ≡ basic) × (client ≡ authzname))
        ⊎ ((type ≡ k5login) × IsListed x clientrealm authzname)
  unfolding grants
  grants-IsAuthorized client clientrealm authzname type =
      go (type == basic) refl (type == k5login) refl
    where
      go :
          (b : Bool)
          → (type == basic) ≡ b
          → (c : Bool) → (type == k5login) ≡ c
          → (if b
              then str_equal client authzname
              else if c
              then authorize_k5login x clientrealm authzname
              else false)
            ≡ true
          → ((type ≡ basic) × (client ≡ authzname))
            ⊎ ((type ≡ k5login) × IsListed x clientrealm authzname)
      go true p c q h = inl (ground arith, eq_of_str_equal client authzname h)
      go false p true q h = inr (ground arith, authorize_k5login-IsListed clientrealm authzname h)
      go false p false q h = cc

  any_grants-IsAuthorized :
      (client clientrealm authzname : Bytes) (types : List ℕ)
      → any_grants x client clientrealm authzname types ≡ true
      → IsAuthorized client clientrealm types authzname
  unfolding any_grants
  any_grants-IsAuthorized client clientrealm authzname [] h = cc
  any_grants-IsAuthorized client clientrealm authzname (type ∷ types) h =
      elim (Bool-cases (grants x client clientrealm authzname type)) [
        | inl q ↦ first (grants-IsAuthorized client clientrealm authzname type q)
        | inr q ↦
            later
              (any_grants-IsAuthorized client clientrealm authzname types (rw (q, any_grants) at h))
      ]
    where
      first :
          ((type ≡ basic) × (client ≡ authzname))
            ⊎ ((type ≡ k5login) × IsListed x clientrealm authzname)
          → IsAuthorized client clientrealm (type ∷ types) authzname
      first (inl (p, q)) = inl (inl p, q)
      first (inr (p, q)) = inr (inl p, q)

      later :
          IsAuthorized client clientrealm types authzname
          → IsAuthorized client clientrealm (type ∷ types) authzname
      later (inl (p, q)) = inl (inr p, q)
      later (inr (p, q)) = inr (inr p, q)

  -- Where `shishi_authorized_p` lets a client in, its name and realm could be read, and either "basic"
  -- is one of the types and the client's name is the account's, or "k5login" is one of them and the
  -- account lists the client: its home's .k5login belongs to its user or root, neither the group nor
  -- the world may write it, and the client with its realm is one of its lines.
  pub authorized_p-IsAuthorized :
      (client clientrealm : Option Bytes) (types : List ℕ) (authzname : Bytes)
      → authorized_p x client clientrealm types authzname ≡ true
      → (c : Bytes) × (r : Bytes) × (client ≡ some c)
        × (clientrealm ≡ some r)
        × IsAuthorized c r types authzname
  unfolding authorized_p
  authorized_p-IsAuthorized none clientrealm types authzname h = cc
  authorized_p-IsAuthorized (some client) none types authzname h = cc
  authorized_p-IsAuthorized (some client) (some clientrealm) types authzname h = (
    client,
    clientrealm,
    refl,
    refl,
    any_grants-IsAuthorized client clientrealm authzname types h,
  )
