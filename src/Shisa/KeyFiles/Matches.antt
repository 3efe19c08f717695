-- ===== src/Shisa/KeyFiles/Matches.antt =====
-- Which keys the hints of shisa_file_keys_find and shisa_file_key_remove of db/file.c match.
use shishi.Base.{
  Bool, true, false, ◌&&◌, List, [], ◌∷◌, ◌++◌, Option, none, some, Bytes, if◌then◌else◌, ◌≡◌, ◌≢◌,
  refl, ap, ◌∙◌, arith, Option-cases, inl, inr,
}
use mathlib.Core.Path.{subst}
use shishi.Shisa.Key.{ShisaKey, key_match, password_match, number_match, array_match}
use shishi.Shisa.Key.Version.{HasNoVersion, read_key-HasNoVersion}
use shishi.Shisa.System.{System, ls4, path4}
use shishi.Shisa.KeyFiles.{
  ShisaRc, shisa_ok, no_key, enumerate_key_error, minus_one, keys_name, stored_key, hint_match,
  keep_if, find_keys, keys_find, find_file, remove_found, key_remove, found_next,
}

-- What a hint without a password asks of a key
abbrev pub fits : ShisaKey → ShisaKey → Bool
fits hint key =
    number_match hint.kvno key.kvno
    && number_match hint.etype key.etype
    && array_match hint.key key.key
    && array_match hint.salt key.salt
    && array_match hint.str2keyparam key.str2keyparam

-- The keys that fit, in their order
unfoldable pub fitting : ShisaKey → List ShisaKey → List ShisaKey
fitting hint [] = []
fitting hint (key ∷ keys) = if fits hint key then key ∷ fitting hint keys else fitting hint keys

abbrev pub fitting_found :
    ShisaKey → Option (ShisaRc × List ShisaKey) → Option (ShisaRc × List ShisaKey)
fitting_found hint none = none
fitting_found hint (some (rc, keys)) = some (rc, fitting hint keys)

module _ (x : System) (path : Bytes) where
  module _ (realm principal : Bytes) (hint : ShisaKey) (plain : hint.password ≡ none) where
    key_match_plain : (key : ShisaKey) → key_match hint key ≡ some (fits hint key)
    unfolding key_match password_match
    key_match_plain key = ap (λ p. password_match (fits hint key) p key.password) plain

    keep_if-fitting :
        (key : ShisaKey) (r : Option (ShisaRc × List ShisaKey))
        → keep_if (some (fits hint key)) key (fitting_found hint r)
          ≡ fitting_found hint (keep_if (some true) key r)
    unfolding fitting
    keep_if-fitting key r = by_test (fits hint key) refl r
      where
        by_test :
            (b : Bool)
            → fits hint key ≡ b
            → (r : Option (ShisaRc × List ShisaKey))
            → keep_if (some b) key (fitting_found hint r)
              ≡ fitting_found hint (keep_if (some true) key r)
        by_test true e none = refl
        by_test true e (some (rc, keys)) = rw (fitting_found, fitting, e)
        by_test false e none = refl
        by_test false e (some (rc, keys)) = rw (fitting_found, fitting, e)

    find_keys-fitting :
        (files : List Bytes) (s : x.State)
        → find_keys x path realm principal (some hint) files s
          ≡ fitting_found hint (find_keys x path realm principal none files s)
    unfolding find_keys fitting
    find_keys-fitting [] s = refl
    find_keys-fitting (file ∷ files) s =
        elim (Option-cases (stored_key x path realm principal file s)) [
          | inl e ↦ rw (e, find_keys)
          | inr (key, e) ↦
              rw (e, find_keys)
                (ap (λ b. keep_if b key (find_keys x path realm principal (some hint) files s))
                    (unfold hint_match in key_match_plain key)
                  ∙ (ap (keep_if (some (fits hint key)) key) (find_keys-fitting files s)
                      ∙ keep_if-fitting key (find_keys x path realm principal none files s)))
        ]

    -- With a hint that has no password, `shisa_file_keys_find` gives what it gives with none, with
    -- the keys left out that the hint does not fit: the return code and the order are the same.
    pub keys_find-fitting :
        (s : x.State)
        → keys_find x path realm principal (some hint) s
          ≡ fitting_found hint (keys_find x path realm principal none s)
    unfolding keys_find fitting
    keys_find-fitting s = elim (Option-cases (ls4 x path realm principal keys_name s)) [
      | inl e ↦ rw (e, keys_find, fitting)
      | inr (files, e) ↦ rw (e, keys_find) (find_keys-fitting files s)
    ]

  module _ (realm principal : Bytes) where
    stored_key-HasNoVersion :
        (file : Bytes) (s : x.State) → HasNoVersion (stored_key x path realm principal file s)
    unfolding stored_key
    stored_key-HasNoVersion file s =
        elim (Option-cases
          (x.read_file (path4 path realm principal (keys_name ++ (b'/' ∷ file))) s)) [
            | inl e ↦ rw (e, stored_key) tt
            | inr (text, e) ↦ rw (e, stored_key) (read_key-HasNoVersion text)
          ]

    find_keys_versioned :
        (hint : ShisaKey) (files : List Bytes) (s : x.State)
        → hint.kvno ≢ 0
        → hint.password ≡ none
        → (rc : ShisaRc) × (find_keys x path realm principal (some hint) files s ≡ some (rc, []))
    unfolding find_keys
    find_keys_versioned hint [] s v p = (shisa_ok, refl)
    find_keys_versioned hint (file ∷ files) s v p =
        elim (Option-cases (stored_key x path realm principal file s)) [
          | inl e ↦ (no_key, rw (e, find_keys))
          | inr (key, e) ↦
              let versioned = subst HasNoVersion e (stored_key-HasNoVersion file s) in
              let (rc, rest) = find_keys_versioned hint files s v p in
              (
                rc,
                rw (e, find_keys)
                    (ap (λ b. keep_if b key (find_keys x path realm principal (some hint) files s))
                        (unfold hint_match in
                          key_match_plain realm principal hint p key
                          ∙ ap some (unfit key versioned))
                      ∙ rest),
              )
        ]
      where
        unfit : (key : ShisaKey) → key.kvno ≡ 0 → fits hint key ≡ false
        unfit key e = ground arith

    -- A hint with a version number and no password fits no key: `shisa_file_keys_find` gives no key
    -- for it, whatever the files hold.
    pub keys_find_versioned :
        (hint : ShisaKey) (s : x.State)
        → hint.kvno ≢ 0
        → hint.password ≡ none
        → (rc : ShisaRc) × (keys_find x path realm principal (some hint) s ≡ some (rc, []))
    unfolding keys_find
    keys_find_versioned hint s v p = elim (Option-cases (ls4 x path realm principal keys_name s)) [
      | inl e ↦ (enumerate_key_error, rw (e, keys_find))
      | inr (files, e) ↦ rw (e, keys_find) (find_keys_versioned hint files s v p)
    ]

    -- What a search for the one file says of the keys
    abbrev IsUnique : Option Bytes → Option (ShisaRc × List ShisaKey) → Type 0
    IsUnique (some found) r = r ≡ some (shisa_ok, [])
    IsUnique none r = (key : ShisaKey) × (r ≡ some (shisa_ok, key ∷ []))

    find_file-IsUnique :
        (hint : Option ShisaKey) (files : List Bytes) (found : Option Bytes) (s : x.State)
        (file : Bytes)
        → find_file x path realm principal hint files found s ≡ some (shisa_ok, some file)
        → IsUnique found (find_keys x path realm principal hint files s)
    unfolding find_file find_keys
    find_file-IsUnique hint [] (some f) s file e = refl
    find_file-IsUnique hint [] none s file e = absurd (cc)
    find_file-IsUnique hint (f ∷ files) found s file e =
        elim (Option-cases (stored_key x path realm principal f s)) [
          | inl q ↦ absurd (unread found (rw (q, find_file) at e))
          | inr (key, q) ↦
              rw (q, find_keys)
                (by_match key (hint_match hint key) found
                  (λ g h. find_file-IsUnique hint files g s file h) (rw (q, find_file) at e))
        ]
      where
        unread :
            (found : Option Bytes)
            → ¬ (
                ◌≡◌ {A = Option (ShisaRc × Option Bytes)}
                  (some (no_key, found))
                  (some (shisa_ok, some file)))
        unread found h = cc

        by_match :
            (key : ShisaKey) (m : Option Bool) (found : Option Bytes)
            → ((g : Option Bytes)
                → find_file x path realm principal hint files g s ≡ some (shisa_ok, some file)
                → IsUnique g (find_keys x path realm principal hint files s))
            → found_next found f m (λ g. find_file x path realm principal hint files g s)
              ≡ some (shisa_ok, some file)
            → IsUnique found (keep_if m key (find_keys x path realm principal hint files s))
        by_match key none found ih h = absurd (cc)
        by_match key (some false) found ih h = ih found h
        by_match key (some true) none ih h = (key, ap (keep_if (some true) key) (ih (some f) h))
        by_match key (some true) (some other) ih h = absurd (cc)

    -- `shisa_file_key_remove` removes a file only where exactly one key matches: where it succeeds,
    -- `shisa_file_keys_find` with the same hint gives exactly one key before.
    pub key_remove_unique :
        (hint : Option ShisaKey) (s s' : x.State)
        → key_remove x path realm principal hint s ≡ some (shisa_ok, s')
        → (key : ShisaKey) × (keys_find x path realm principal hint s ≡ some (shisa_ok, key ∷ []))
    unfolding key_remove keys_find
    key_remove_unique hint s s' e = elim (Option-cases (ls4 x path realm principal keys_name s)) [
      | inl q ↦ absurd (unlisted (rw (q, key_remove) at e))
      | inr (files, q) ↦
          rw (q, keys_find)
            (by_found files (find_file x path realm principal hint files none s) refl
              (rw (q, key_remove) at e))
    ]
      where
        unlisted :
            ¬ (◌≡◌ {A = Option (ShisaRc × x.State)} (some (minus_one, s)) (some (shisa_ok, s')))
        unlisted h = cc

        by_found :
            (files : List Bytes) (r : Option (ShisaRc × Option Bytes))
            → find_file x path realm principal hint files none s ≡ r
            → remove_found x path realm principal s r ≡ some (shisa_ok, s')
            → (key : ShisaKey) × (find_keys x path realm principal hint files s
                ≡ some (shisa_ok, key ∷ []))
        by_found files none q h = absurd (cc)
        by_found files (some (shisa_ok, some file)) q h =
            find_file-IsUnique hint files none s file q
        by_found files (some (rc, found)) q h = absurd (cc)
