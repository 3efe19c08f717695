-- ===== src/Kdc/Select/Choice.antt =====
-- The first key that a client accepts, and what the loops over the keys find.
use shishi.Base.{
  ℕ, Bool, true, false, List, [], ◌∷◌, Option, none, some, if◌then◌else◌, ◌==◌, ◌≡◌, refl, ap, ap₂,
  ◌∙◌, arith, Bool-cases, All, ◌++◌, ◌&&◌, ◌||◌, inl, inr,
}
use shishi.Cipher.{cipher_supported_p}
use shishi.Shisa.Key.{ShisaKey}
use shishi.Kdc.Select.{last_match, type_match, no_type}

-- Whether a key of the type is there, and whether the type can be used
abbrev pub has_type : ℕ → List ShisaKey → Bool
has_type etype [] = false
has_type etype (key ∷ keys) = (key.etype == etype) || has_type etype keys

abbrev pub usable : List ShisaKey → ℕ → Bool
usable keys etype = cipher_supported_p etype && has_type etype keys

-- The first type of the list that can be used
pub record IsFirst (keys : List ShisaKey) (etypes : List ℕ) (etype : ℕ) : Type 0 where
  pub before : List ℕ
  pub after : List ℕ
  pub is_split : etypes ≡ before ++ etype ∷ after
  pub is_usable : usable keys etype ≡ true
  pub not_before : All (λ e. usable keys e ≡ false) before

-- The last key of its type
pub record IsLast (keys : List ShisaKey) (key : ShisaKey) : Type 0 where
  pub front : List ShisaKey
  pub back : List ShisaKey
  pub is_split : keys ≡ front ++ key ∷ back
  pub not_behind : has_type key.etype back ≡ false

pub data UserChoice (keys : List ShisaKey) (etypes : List ℕ) : Option ShisaKey → Type 0 where
  no_key : All (λ e. usable keys e ≡ false) etypes → UserChoice keys etypes none
  user_key :
      (key : ShisaKey)
      → IsFirst keys etypes key.etype
      → IsLast keys key
      → UserChoice keys etypes (some key)

pub data TypeChoice (keys : List ShisaKey) (etypes : List ℕ) : ℕ → Type 0 where
  no_etype : All (λ e. usable keys e ≡ false) etypes → TypeChoice keys etypes no_type
  first_etype : (etype : ℕ) → IsFirst keys etypes etype → TypeChoice keys etypes etype

pub last_match_absent :
    (etype : ℕ) (keys : List ShisaKey) (found : Option ShisaKey)
    → has_type etype keys ≡ false
    → last_match etype keys found ≡ found
unfolding last_match
last_match_absent etype [] found h = refl
last_match_absent etype (key ∷ keys) found h = ground (arith, h, last_match_absent etype keys found)

pub type_match_absent :
    (etype : ℕ) (keys : List ShisaKey) (found : ℕ)
    → has_type etype keys ≡ false
    → type_match etype keys found ≡ found
unfolding type_match
type_match_absent etype [] found h = refl
type_match_absent etype (key ∷ keys) found h = ground (arith, h, type_match_absent etype keys found)

pub type_match_present :
    (etype : ℕ) (keys : List ShisaKey) (found : ℕ)
    → has_type etype keys ≡ true
    → type_match etype keys found ≡ etype
unfolding type_match
type_match_present etype [] found h = cc
type_match_present etype (key ∷ keys) found h = elim (Bool-cases (has_type etype keys)) [
  | inl e ↦ type_match_present etype keys _ e
  | inr e ↦ type_match_absent etype keys _ e ∙ here e (key.etype == etype) refl
]
  where
    here :
        has_type etype keys ≡ false
        → (b : Bool) → (key.etype == etype) ≡ b
        → (if b then key.etype else found) ≡ etype
    here e b q = ground (arith, h, e, q)

pub last_match_present :
    (etype : ℕ) (keys : List ShisaKey) (found : Option ShisaKey)
    → has_type etype keys ≡ true
    → (key : ShisaKey) × (last_match etype keys found ≡ some key)
      × (key.etype ≡ etype)
      × IsLast keys key
unfolding last_match
last_match_present etype [] found h = absurd cc
last_match_present etype (key ∷ keys) found h = elim (Bool-cases (has_type etype keys)) [
  | inl e ↦
      let (last, q, t, l) = last_match_present etype keys _ e in
      (
        last,
        q,
        t,
        record {
          front = key ∷ l.front;
          back = l.back;
          is_split = ap (◌∷◌ key) l.is_split;
          not_behind = l.not_behind;
        },
      )
  | inr e ↦
      let same : key.etype ≡ etype = ground (arith, h, e) in
      (
        key,
        last_match_absent etype keys _ e
            ∙ ap (λ b. if b then some key else found) {y = true} (ground (arith, same)),
        same,
        record {
          front = [];
          back = keys;
          is_split = refl;
          not_behind = ap (λ t. has_type t keys) same ∙ e;
        },
      )
]

module _ {keys : List ShisaKey} {etypes : List ℕ} (etype : ℕ) (h : usable keys etype ≡ false) where
  pub IsFirst-later : {first : ℕ} → IsFirst keys etypes first → IsFirst keys (etype ∷ etypes) first
  IsFirst-later f = record {
    before = etype ∷ f.before;
    after = f.after;
    is_split = ap (◌∷◌ etype) f.is_split;
    is_usable = f.is_usable;
    not_before = (h, f.not_before);
  }

  pub UserChoice-later :
      {found : Option ShisaKey}
      → UserChoice keys etypes found
      → UserChoice keys (etype ∷ etypes) found
  UserChoice-later (no_key all) = no_key (h, all)
  UserChoice-later (user_key key f l) = user_key key (IsFirst-later f) l

  pub TypeChoice-later :
      {found : ℕ} → TypeChoice keys etypes found → TypeChoice keys (etype ∷ etypes) found
  TypeChoice-later (no_etype all) = no_etype (h, all)
  TypeChoice-later (first_etype type f) = first_etype type (IsFirst-later f)

pub IsFirst-here :
    (keys : List ShisaKey) (etypes : List ℕ) (etype : ℕ)
    → usable keys etype ≡ true
    → IsFirst keys (etype ∷ etypes) etype
IsFirst-here keys etypes etype h = record {
  before = [];
  after = etypes;
  is_split = refl;
  is_usable = h;
  not_before = tt;
}

pub usable_of :
    (keys : List ShisaKey) (etype : ℕ) {b c : Bool}
    → cipher_supported_p etype ≡ b
    → has_type etype keys ≡ c
    → usable keys etype ≡ (b && c)
usable_of keys etype e h = ap₂ (λ b c. b && c) e h
