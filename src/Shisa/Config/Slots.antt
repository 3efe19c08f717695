-- ===== src/Shisa/Config/Slots.antt =====
-- What several lines of configuration leave in the array of databases.
use shishi.Base.{
  ℕ, zero, suc, ◌+◌, Bool, true, false, List, [], ◌∷◌, ◌++◌, Option, none, some, Bytes, All, codes,
  replicate, length, ◌==◌, ◌≡◌, ◌≢◌, refl, ap, ◌∙◌, arith,
}
use shishi.Shisa.KeyFiles.{ShisaRc, shisa_ok}
use shishi.Shisa.Config.{
  is_end, is_blank, strip_end, skip_blanks, with_equals, cfg_lines, after_cfg, cfg_text, cut,
  store_db, file_init, file_cfg, init_db, shisa_cfg_db, shisa_cfg,
}

-- Bytes that are no blanks
abbrev pub NoBlank : Bytes → Type 0
NoBlank = All (λ c. is_blank c ≡ false)

cut-NoBlank : (text : Bytes) → NoBlank text → cut b' ' text ≡ (text, none)
unfolding cut
cut-NoBlank [] h = refl
cut-NoBlank (c ∷ cs) (h, hs) =
    let other : (c == b' ') ≡ false = ground arith in rw (other, cut-NoBlank cs hs)

strip_end-NoBlank : (text : Bytes) → NoBlank text → strip_end (text ++ 10 ∷ []) ≡ text
unfolding strip_end
strip_end-NoBlank [] h = refl
strip_end-NoBlank (c ∷ []) (h, hs) =
    let kept : is_end c ≡ false = ground arith in rw (kept, strip_end)
strip_end-NoBlank (c ∷ d ∷ cs) (h, hs) = rw (strip_end-NoBlank (d ∷ cs) hs)

replicate_behind {ℓ} :
    {A : Type ℓ} → (n : ℕ) (a : A) → replicate n a ++ a ∷ [] ≡ replicate (suc n) a
replicate_behind zero a = refl
replicate_behind (suc n) a = ap (a ∷◌) (replicate_behind n a)

-- The line of a database in files: "db=file LOCATION\n"
abbrev pub file_line : Bytes → Bytes
file_line location = codes "db=file " ++ (location ++ 10 ∷ [])

strip_end-file_line :
    (location : Bytes)
    → NoBlank location
    → location ≢ []
    → strip_end (file_line location) ≡ codes "db=file " ++ location
unfolding strip_end
strip_end-file_line [] h e = absurd (e refl)
strip_end-file_line (c ∷ cs) h e = rw (strip_end-NoBlank (c ∷ cs) h)

abbrev pub file_lines : List Bytes → List Bytes
file_lines [] = []
file_lines (location ∷ locations) = file_line location ∷ file_lines locations

abbrev pub last_of : Bytes → List Bytes → Bytes
last_of location [] = location
last_of location (next ∷ locations) = last_of next locations

module _ (is_dir : Bytes → Bool) (getsubopts : Bytes → List ℕ) where
  -- A location that is a directory, and has no blanks
  abbrev pub IsLocation : Bytes → Type 0
  IsLocation location = (is_dir location ≡ true) × NoBlank location × (location ≢ [])

  cfg_file :
      (location : Bytes) (slots : List (Option Bytes))
      → IsLocation location
      → shisa_cfg is_dir getsubopts (some (codes "db=file " ++ location)) slots
        ≡ (shisa_ok, store_db location slots)
  unfolding shisa_cfg shisa_cfg_db file_init file_cfg init_db
  cfg_file location slots (d, h, e) = rw (cut-NoBlank location h, d)

  cfg_lines-store_db :
      (location : Bytes) (lines : List Bytes) (slots : List (Option Bytes))
      → IsLocation location
      → cfg_lines is_dir getsubopts (file_line location ∷ lines) slots
        ≡ cfg_lines is_dir getsubopts lines (store_db location slots)
  unfolding cfg_lines skip_blanks with_equals
  cfg_lines-store_db location lines slots i =
      let again = cfg_lines is_dir getsubopts lines in
      let cfg : Bytes → List (Option Bytes) → ShisaRc × List (Option Bytes) =
        λ text. shisa_cfg is_dir getsubopts (some (with_equals text)) in
      ap (λ text. cfg_text again cfg (skip_blanks text) slots)
        (strip_end-file_line location i.1 i.2)
      ∙ ap (after_cfg again) (cfg_file location slots i)

  -- The array behind several lines, when it held one slot at least: the first slot is the last
  -- location, and a slot without content is added for each line.
  cfg_lines-set :
      (locations : List Bytes) (first : Bytes) (n : ℕ)
      → All IsLocation locations
      → cfg_lines is_dir getsubopts (file_lines locations) (some first ∷ replicate n none)
        ≡ (shisa_ok, some (last_of first locations) ∷ replicate (length locations + n) none)
  unfolding cfg_lines store_db
  cfg_lines-set [] first n h = ap (λ m. (shisa_ok, some first ∷ replicate m none)) (omega arith)
  cfg_lines-set (location ∷ locations) first n (h, hs) =
      cfg_lines-store_db location (file_lines locations) (some first ∷ replicate n none) h
      ∙ ap (λ slots. cfg_lines is_dir getsubopts (file_lines locations) (some location ∷ slots))
          (replicate_behind n none)
      ∙ cfg_lines-set locations location (suc n) hs
      ∙ ap (λ m. (shisa_ok, some (last_of location locations) ∷ replicate m none)) (ground arith)

  -- Lines that name databases in files, at directories, leave one slot per line, but only the first
  -- slot is stored to: it holds the location of the last line, and no other location is kept.
  pub cfg_lines_last :
      (location : Bytes) (locations : List Bytes)
      → IsLocation location
      → All IsLocation locations
      → cfg_lines is_dir getsubopts (file_lines (location ∷ locations)) []
        ≡ (shisa_ok, some (last_of location locations) ∷ replicate (length locations) none)
  unfolding store_db
  cfg_lines_last location locations h hs =
      cfg_lines-store_db location (file_lines locations) [] h
      ∙ cfg_lines-set locations location 0 hs
      ∙ ap (λ m. (shisa_ok, some (last_of location locations) ∷ replicate m none)) (ground arith)
