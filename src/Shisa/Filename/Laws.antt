-- ===== src/Shisa/Filename/Laws.antt =====
-- What db/fileutil.c's names of files keep of the names of realms and principals.
use shishi.Base.{
  ℕ, ◌/◌, ◌%◌, ◌<◌, ◌≡◌, ◌≢◌, refl, sym, ap₂, inl, inr, Bool, true, false, not, ◌&&◌, ◌||◌, [], ◌∷◌,
  ◌++◌, Bytes, All, ◌==◌, arith, Bool-cases, all_below, all_below_sound,
}
use shishi.Shisa.Filename.{
  is_plain, hex_digit, escape_char, escape_filename, ishex, hex_value, tohex, unescape_filename,
}

abbrev pub IsByte : ℕ → Type 0
IsByte c = c < 256

-- A byte that is kept as it is, or whose digits are both other than ten
abbrev pub survives : ℕ → Bool
survives c = is_plain c || (not (c / 16 == 10) && not (c % 16 == 10))

ishex_always : (c : ℕ) → c < 256 → ishex c ≡ true
unfolding ishex
ishex_always c h = ground arith

hex_digit_bound : (i : ℕ) → i < 16 → hex_digit i < 256
unfolding hex_digit
hex_digit_bound i h = ground arith

abbrev digits_hold : ℕ → Bool
digits_hold c =
    not (survives c) || is_plain c || (tohex (hex_digit (c / 16)) (hex_digit (c % 16)) == c)

digits_table : all_below 256 digits_hold ≡ true
unfolding is_plain hex_digit hex_value tohex
digits_table = refl

tohex-hex_digit :
    (c : ℕ)
    → c < 256
    → survives c ≡ true
    → is_plain c ≡ false
    → tohex (hex_digit (c / 16)) (hex_digit (c % 16)) ≡ c
tohex-hex_digit c h s p = go (all_below_sound 256 digits_hold c digits_table h)
  where
    go : digits_hold c ≡ true → tohex (hex_digit (c / 16)) (hex_digit (c % 16)) ≡ c
    go q = ground arith

plain-is_not_percent : (c : ℕ) → is_plain c ≡ true → (c == 37) ≡ false
unfolding is_plain
plain-is_not_percent c h = ground arith

unescape_plain :
    (c : ℕ) (r : Bytes) → (c == 37) ≡ false → unescape_filename (c ∷ r) ≡ c ∷ unescape_filename r
unfolding unescape_filename
unescape_plain c [] h = refl
unescape_plain c (d ∷ []) h = refl
unescape_plain c (d ∷ e ∷ r) h = rw (h, unescape_filename)

unescape_digits :
    (d e : ℕ) (r : Bytes)
    → d < 256
    → e < 256
    → unescape_filename (37 ∷ d ∷ e ∷ r) ≡ tohex d e ∷ unescape_filename r
unfolding unescape_filename
unescape_digits d e r h k = rw (ishex_always d h, ishex_always e k, unescape_filename)

-- Reading a file's name gives back the name it was made of, when each of its characters is a
-- letter, a digit, '-' or '.', or has no hexadecimal digit of value ten.
pub unescape_filename-escape_filename :
    (name : Bytes)
    → All IsByte name
    → All (λ c. survives c ≡ true) name
    → unescape_filename (escape_filename name) ≡ name
unfolding escape_filename escape_char unescape_filename
unescape_filename-escape_filename [] b s = refl
unescape_filename-escape_filename (c ∷ name) (b, bs) (s, ss) = elim (Bool-cases (is_plain c)) [
  | inl p ↦ rw (
    p,
    unescape_plain c (escape_filename name) (plain-is_not_percent c p),
    unescape_filename-escape_filename name bs ss,
  )
  | inr p ↦ rw (
    p,
    unescape_digits (hex_digit (c / 16)) (hex_digit (c % 16)) (escape_filename name)
        (hex_digit_bound (c / 16) (omega arith)) (hex_digit_bound (c % 16) (omega arith)),
    tohex-hex_digit c b s p,
    unescape_filename-escape_filename name bs ss,
  )
]

hex_digit_injective : (i j : ℕ) → i < 16 → j < 16 → hex_digit i ≡ hex_digit j → i ≡ j
unfolding hex_digit
hex_digit_injective i j h k e = ground arith

byte_of_digits : (c d : ℕ) → c / 16 ≡ d / 16 → c % 16 ≡ d % 16 → c ≡ d
byte_of_digits c d e f = omega arith

escape_char_plain : (c : ℕ) → is_plain c ≡ true → escape_char c ≡ c ∷ []
unfolding escape_char
escape_char_plain c p = rw p

escape_char_escaped :
    (c : ℕ) → is_plain c ≡ false → escape_char c ≡ 37 ∷ hex_digit (c / 16) ∷ hex_digit (c % 16) ∷ []
unfolding escape_char
escape_char_escaped c p = rw p

escape_char-append-nil : (c : ℕ) (r : Bytes) → escape_char c ++ r ≢ []
escape_char-append-nil c r e = elim (Bool-cases (is_plain c)) [
  | inl p ↦ let e = rw (escape_char_plain c p) at e in cc
  | inr p ↦ let e = rw (escape_char_escaped c p) at e in cc
]

heads_agree : (c d : ℕ) (r u : Bytes) → ◌≡◌ {A = Bytes} (c ∷ r) (d ∷ u) → (c ≡ d) × (r ≡ u)
heads_agree c d r u e = (cc, cc)

percent_not_plain : (c : ℕ) → is_plain c ≡ true → c ≢ 37
unfolding is_plain
percent_not_plain c h e = ground arith

digits_agree :
    (c d : ℕ) (r u : Bytes)
    → c < 256
    → d < 256
    → ◌≡◌ {A = Bytes}
        (37 ∷ hex_digit (c / 16) ∷ hex_digit (c % 16) ∷ r)
        (37 ∷ hex_digit (d / 16) ∷ hex_digit (d % 16) ∷ u)
    → (c ≡ d) × (r ≡ u)
digits_agree c d r u p q e =
    let high : hex_digit (c / 16) ≡ hex_digit (d / 16) = cc in
    let low : hex_digit (c % 16) ≡ hex_digit (d % 16) = cc in
    (
      byte_of_digits c d (hex_digit_injective (c / 16) (d / 16) (omega arith) (omega arith) high)
          (hex_digit_injective (c % 16) (d % 16) (omega arith) (omega arith) low),
      cc,
    )

escape_char_injective :
    (c d : ℕ) (r u : Bytes)
    → c < 256
    → d < 256
    → escape_char c ++ r ≡ escape_char d ++ u
    → (c ≡ d) × (r ≡ u)
escape_char_injective c d r u p q e = elim (Bool-cases (is_plain c)) [
  | inl m ↦ elim (Bool-cases (is_plain d)) [
    | inl n ↦ heads_agree c d r u (rw (escape_char_plain c m, escape_char_plain d n) at e)
    | inr n ↦ absurd (
        percent_not_plain c m
          (heads_agree c 37 r (hex_digit (d / 16) ∷ hex_digit (d % 16) ∷ u)
            (rw (escape_char_plain c m, escape_char_escaped d n) at e)).0)
  ]
  | inr m ↦ elim (Bool-cases (is_plain d)) [
    | inl n ↦ absurd (
        percent_not_plain d n (
          sym
            (heads_agree 37 d (hex_digit (c / 16) ∷ hex_digit (c % 16) ∷ r) u
              (rw (escape_char_escaped c m, escape_char_plain d n) at e)).0))
    | inr n ↦ digits_agree c d r u p q (rw (escape_char_escaped c m, escape_char_escaped d n) at e)
  ]
]

-- Different names have different files: two names of bytes with the same file name are equal.
pub escape_filename_injective :
    (s t : Bytes) → All IsByte s → All IsByte t → escape_filename s ≡ escape_filename t → s ≡ t
unfolding escape_filename
escape_filename_injective [] [] a b e = refl
escape_filename_injective [] (d ∷ t) a b e =
    absurd (escape_char-append-nil d (escape_filename t) (sym e))
escape_filename_injective (c ∷ s) [] a b e = absurd (escape_char-append-nil c (escape_filename s) e)
escape_filename_injective (c ∷ s) (d ∷ t) (p, ps) (q, qs) e =
    let f = escape_char_injective c d (escape_filename s) (escape_filename t) p q e in
    ap₂ ◌∷◌ f.0 (escape_filename_injective s t ps qs f.1)

plain-is_not_slash : (c : ℕ) → is_plain c ≡ true → (c ≢ 47) × (c ≢ 0)
unfolding is_plain
plain-is_not_slash c h = ground arith

digit-is_not_slash : (i : ℕ) → i < 16 → (hex_digit i ≢ 47) × (hex_digit i ≢ 0)
unfolding hex_digit
digit-is_not_slash i h = ground arith

-- The file's name of a name of bytes has no '/' and no NUL.
pub escape_filename-no_slash :
    (s : Bytes) → All IsByte s → All (λ c. (c ≢ 47) × (c ≢ 0)) (escape_filename s)
unfolding escape_filename
escape_filename-no_slash [] b = tt
escape_filename-no_slash (c ∷ s) (b, bs) = elim (Bool-cases (is_plain c)) [
  | inl p ↦ rw (escape_char_plain c p) (plain-is_not_slash c p, escape_filename-no_slash s bs)
  | inr p ↦ rw (escape_char_escaped c p) (
    (omega arith, omega arith),
    (
      digit-is_not_slash (c / 16) (omega arith),
      (digit-is_not_slash (c % 16) (omega arith), escape_filename-no_slash s bs),
    ),
  )
]
