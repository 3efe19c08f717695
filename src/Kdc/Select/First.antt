-- ===== src/Kdc/Select/First.antt =====
-- What asreq1 of src/kdc.c chooses: the first key that the client accepts.
use shishi.Base.{
  ℕ, Bool, true, false, List, [], ◌∷◌, Option, none, some, if◌then◌else◌, ◌==◌, ◌≡◌, refl, sym, ap,
  ◌∙◌, arith, Bool-cases, inl, inr,
}
use mathlib.Core.Path.{subst}
use shishi.Cipher.{cipher_supported_p, find_cipher, ciphers}
use shishi.Shisa.Key.{ShisaKey}
use shishi.Kdc.Select.{last_match, type_match, no_type, select}
use shishi.Kdc.Select.Choice.{
  has_type, IsFirst, UserChoice, no_key, user_key, TypeChoice, no_etype, first_etype,
  UserChoice-later, TypeChoice-later, last_match_absent, type_match_absent, type_match_present,
  last_match_present, IsFirst-here, usable_of,
}

module _ (serverkeys userkeys : List ShisaKey) where
  abbrev choice : List ℕ → ℕ → Option ShisaKey → ℕ × Option ShisaKey
  choice etypes type found = select serverkeys userkeys etypes (type, found)

  abbrev pair : ℕ → Option ShisaKey → ℕ × Option ShisaKey
  pair type found = (type, found)

  select_user_kept :
      (etypes : List ℕ) (type : ℕ) (key : ShisaKey) → (choice etypes type (some key)).1 ≡ some key
  unfolding select
  select_user_kept [] type key = refl
  select_user_kept (etype ∷ etypes) type key =
      go (λ t. select_user_kept etypes t key) (cipher_supported_p etype) _
    where
      go :
          ((t : ℕ) → (choice etypes t (some key)).1 ≡ some key)
          → (b : Bool) (next : ℕ)
          → (select serverkeys userkeys etypes
              (if b then pair next (some key) else pair type (some key))).1
            ≡ some key
      go ih true next = ih next
      go ih false next = ih type

  -- The user's key is the last one of the first type that the client accepts, the library has and
  -- a key is there for; there is none where no type is such.
  pub select-UserChoice :
      (etypes : List ℕ) (type : ℕ)
      → UserChoice userkeys etypes ((select serverkeys userkeys etypes (type, none)).1)
  unfolding select
  select-UserChoice [] type = no_key tt
  select-UserChoice (etype ∷ etypes) type =
      go (λ t. select-UserChoice etypes t) (cipher_supported_p etype) refl _
    where
      go :
          ((t : ℕ) → UserChoice userkeys etypes ((choice etypes t none).1))
          → (b : Bool) → cipher_supported_p etype ≡ b
          → (next : ℕ)
          → UserChoice userkeys (etype ∷ etypes) (
              (select serverkeys userkeys etypes
                (if b then pair next (last_match etype userkeys none) else pair type none)).1)
      go ih false e next = UserChoice-later etype (usable_of userkeys etype e refl) (ih type)
      go ih true e next = elim (Bool-cases (has_type etype userkeys)) [
        | inl h ↦
            let (key, q, t, l) = last_match_present etype userkeys none h in
            subst (UserChoice userkeys (etype ∷ etypes))
              (sym (ap (λ o. (choice etypes next o).1) q ∙ select_user_kept etypes next key))
              (user_key key
                (subst (IsFirst userkeys (etype ∷ etypes)) (sym t)
                  (IsFirst-here userkeys etypes etype (usable_of userkeys etype e h)))
                l)
        | inr h ↦
            subst (λ o. UserChoice userkeys (etype ∷ etypes) ((choice etypes next o).1))
              (sym (last_match_absent etype userkeys none h))
              (UserChoice-later etype (usable_of userkeys etype e h) (ih next))
      ]

  select_type_kept :
      (etypes : List ℕ) (type : ℕ) (found : Option ShisaKey)
      → (type == no_type) ≡ false
      → (choice etypes type found).0 ≡ type
  unfolding select
  select_type_kept [] type found h = refl
  select_type_kept (etype ∷ etypes) type found h =
      go (λ o. select_type_kept etypes type o h) (cipher_supported_p etype) (type == no_type) h _
    where
      go :
          ((o : Option ShisaKey) → (choice etypes type o).0 ≡ type)
          → (b c : Bool) → c ≡ false
          → (next : Option ShisaKey)
          → (select serverkeys userkeys etypes (
              if b
              then pair (if c then type_match etype serverkeys type else type) next
              else pair type found)).0
            ≡ type
      go ih true false q next = ih next
      go ih true true q next = cc
      go ih false c q next = ih found

  supported_type : (etype : ℕ) → cipher_supported_p etype ≡ true → (etype == no_type) ≡ false
  unfolding cipher_supported_p find_cipher ciphers
  supported_type etype h = go (etype == no_type) refl
    where
      go : (b : Bool) → (etype == no_type) ≡ b → b ≡ false
      go false q = refl
      go true q =
          let same : etype ≡ no_type = ground (arith, q) in
          let no : false ≡ true = sym (ap cipher_supported_p same) ∙ h in cc

  -- The session key's type is the first one that the client accepts, the library has and the server
  -- has a key of; -1 is left where no type is such.
  pub select-TypeChoice :
      (etypes : List ℕ) (found : Option ShisaKey)
      → TypeChoice serverkeys etypes ((select serverkeys userkeys etypes (no_type, found)).0)
  unfolding select
  select-TypeChoice [] found = no_etype tt
  select-TypeChoice (etype ∷ etypes) found =
      go (λ o. select-TypeChoice etypes o) (cipher_supported_p etype) refl _
    where
      go :
          ((o : Option ShisaKey) → TypeChoice serverkeys etypes ((choice etypes no_type o).0))
          → (b : Bool) → cipher_supported_p etype ≡ b
          → (next : Option ShisaKey)
          → TypeChoice serverkeys (etype ∷ etypes) (
              (select serverkeys userkeys etypes (
                if b
                then pair (type_match etype serverkeys no_type) next
                else pair no_type found)).0)
      go ih false e next = TypeChoice-later etype (usable_of serverkeys etype e refl) (ih found)
      go ih true e next = elim (Bool-cases (has_type etype serverkeys)) [
        | inl h ↦
            subst (TypeChoice serverkeys (etype ∷ etypes))
              (sym (
                ap (λ t. (choice etypes t next).0) (type_match_present etype serverkeys no_type h)
                ∙ select_type_kept etypes etype next (supported_type etype e)))
              (first_etype etype
                (IsFirst-here serverkeys etypes etype (usable_of serverkeys etype e h)))
        | inr h ↦
            subst (λ t. TypeChoice serverkeys (etype ∷ etypes) ((choice etypes t next).0))
              (sym (type_match_absent etype serverkeys no_type h))
              (TypeChoice-later etype (usable_of serverkeys etype e h) (ih next))
      ]
