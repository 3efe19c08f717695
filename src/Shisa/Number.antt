-- ===== src/Shisa/Number.antt =====
-- The numbers of the user database's files: what fprintf and fscanf of the C library do with the
-- formats "%u", "%zu" and "%d" of db/file.c.
use shishi.Base.{
  ℕ, zero, suc, ◌+◌, ◌-◌, ◌*◌, ◌/◌, ◌%◌, ◌^◌, ◌<◌, ◌≡◌, refl, ap, ◌∙◌, sym, inl, inr, Bool, true,
  false, ◌&&◌, ◌||◌, Option, none, some, [], ◌∷◌, ◌++◌, append_assoc, Bytes, leb, ltb, ◌==◌,
  if◌then◌else◌, arith, Bool-cases, lt→ltb,
}
use native.Mathlib.Nat.{mod-eq_of_lt}

-- The digits of a number below 10 ^ size
unfoldable pub digits : (size : ℕ) → ℕ → Bytes
digits zero n = []
digits (suc size) n = elim (ltb n 10) [
  | true ↦ (48 + n) ∷ []
  | false ↦ digits size (n / 10) ++ ((48 + n % 10) ∷ [])
]

-- "%u" and "%zu": a number below 2 ^ 64 has at most twenty digits.
unfoldable pub print_unsigned : ℕ → Bytes
print_unsigned n = digits 20 n

-- "%d" of a 32-bit word
unfoldable pub print_signed : ℕ → Bytes
print_signed n = if ltb n (2 ^ 31) then print_unsigned n else 45 ∷ print_unsigned (2 ^ 32 - n)

abbrev pub is_digit : ℕ → Bool
is_digit c = leb 48 c && leb c 57

abbrev pub is_space : ℕ → Bool
is_space c = (leb 9 c && leb c 13) || (c == 32)

unfoldable pub skip_space : Bytes → Bytes
skip_space [] = []
skip_space (c ∷ text) = elim (is_space c) [ true ↦ skip_space text | false ↦ c ∷ text ]

-- The number that the digits at the front continue, and what is left
unfoldable pub scan_digits : ℕ → Bytes → ℕ × Bytes
scan_digits n [] = (n, [])
scan_digits n (c ∷ text) = elim (is_digit c) [
  | true ↦ scan_digits (n * 10 + (c - 48)) text
  | false ↦ (n, c ∷ text)
]

-- The digits as strtoul takes them: a value that unsigned long cannot hold becomes the largest.
unfoldable pub scan_magnitude : Bytes → Option ℕ × Bytes
scan_magnitude [] = (none, [])
scan_magnitude (c ∷ text) =
    if is_digit c
    then (let r = scan_digits 0 (c ∷ text) in
        (some (if ltb r.0 (2 ^ 64) then r.0 else 2 ^ 64 - 1), r.1))
    else (none, c ∷ text)

-- The magnitude in an unsigned integer of a width, and its negation
unfoldable pub narrow : (width : ℕ) → Option ℕ × Bytes → Option ℕ × Bytes
narrow width (none, rest) = (none, rest)
narrow width (some n, rest) = (some (n % 2 ^ width), rest)

unfoldable pub negate : (width : ℕ) → Option ℕ × Bytes → Option ℕ × Bytes
negate width (none, rest) = (none, rest)
negate width (some n, rest) = (some ((2 ^ 64 - n) % 2 ^ 64 % 2 ^ width), rest)

-- A conversion into an unsigned integer of a width, its sign first
unfoldable pub scan_signed : (width : ℕ) → Bytes → Option ℕ × Bytes
scan_signed width [] = (none, [])
scan_signed width (c ∷ text) =
    if c == 45
    then negate width (scan_magnitude text)
    else if c == 43
    then narrow width (scan_magnitude text)
    else narrow width (scan_magnitude (c ∷ text))

unfoldable pub scan_unsigned : (width : ℕ) → Bytes → Option ℕ × Bytes
scan_unsigned width text = scan_signed width (skip_space text)

-- A text that does not continue a number
abbrev pub EndsNumber : Bytes → Type 0
EndsNumber [] = Unit
EndsNumber (c ∷ text) = is_digit c ≡ false

scan_digits_end : (n : ℕ) (r : Bytes) → EndsNumber r → scan_digits n r ≡ (n, r)
unfolding scan_digits
scan_digits_end n [] h = refl
scan_digits_end n (c ∷ r) h = rw (h, scan_digits)

scan_digits_step :
    (n d m : ℕ) (r : Bytes)
    → d < 10
    → n * 10 + d ≡ m
    → scan_digits n ((48 + d) ∷ r) ≡ scan_digits m r
unfolding scan_digits
scan_digits_step n d m r h e =
    let digit : is_digit (48 + d) ≡ true = ground arith in
    let value : n * 10 + ((48 + d) - 48) ≡ m = omega arith in rw (digit, value, scan_digits)

tenth : (n size : ℕ) → n < 10 ^ suc size → n / 10 < 10 ^ size
tenth n size h = omega arith

scan_digits-digits :
    (size n : ℕ) (r : Bytes) → n < 10 ^ size → scan_digits 0 (digits size n ++ r) ≡ scan_digits n r
unfolding digits
scan_digits-digits zero n r h = ap (λ k. scan_digits k r) {x = 0} {y = n} (omega arith)
scan_digits-digits (suc size) n r h = elim (Bool-cases (ltb n 10)) [
  | inl p ↦ rw (p, digits) (scan_digits_step 0 n n r (ground arith) (omega arith))
  | inr p ↦
      rw (p, digits, append_assoc (digits size (n / 10)) ((48 + n % 10) ∷ []) r)
        (scan_digits-digits size (n / 10) ((48 + n % 10) ∷ r) (tenth n size h)
          ∙ scan_digits_step (n / 10) (n % 10) n r (omega arith) (omega arith))
]

-- A printed number begins with a digit.
digits-head :
    (size n : ℕ) → (d : ℕ) × (s : Bytes) × (digits (suc size) n ≡ d ∷ s) × (is_digit d ≡ true)
unfolding digits
digits-head zero n = elim (Bool-cases (ltb n 10)) [
  | inl p ↦ (48 + n, [], rw (p, digits) refl, ground arith)
  | inr p ↦ (48 + n % 10, [], rw (p, digits) refl, ground arith)
]
digits-head (suc size) n = elim (Bool-cases (ltb n 10)) [
  | inl p ↦ (48 + n, [], rw (p, digits) refl, ground arith)
  | inr p ↦
      (let (d, s, e, q) = digits-head size (n / 10) in
        (d, s ++ ((48 + n % 10) ∷ []), rw (p, digits, e) refl, q))
]

scan_magnitude_digit :
    (d n : ℕ) (s r : Bytes)
    → is_digit d ≡ true
    → scan_digits 0 (d ∷ s) ≡ (n, r)
    → n < 2 ^ 64
    → scan_magnitude (d ∷ s) ≡ (some n, r)
unfolding scan_magnitude
scan_magnitude_digit d n s r p e h = rw (p, e, lt→ltb n (2 ^ 64) h, scan_magnitude)

scan_signed_digit :
    (width d n : ℕ) (s r : Bytes)
    → is_digit d ≡ true
    → scan_magnitude (d ∷ s) ≡ (some n, r)
    → n < 2 ^ width
    → scan_signed width (d ∷ s) ≡ (some n, r)
unfolding scan_signed narrow
scan_signed_digit width d n s r p e h =
    let minus : (d == 45) ≡ false = ground arith in
    let plus : (d == 43) ≡ false = ground arith in
    let fits : n % 2 ^ width ≡ n = mod-eq_of_lt h in rw (minus, plus, e, fits, scan_signed)

skip_space_digit : (d : ℕ) (s : Bytes) → is_digit d ≡ true → skip_space (d ∷ s) ≡ d ∷ s
unfolding skip_space
skip_space_digit d s p =
    let no_space : is_space d ≡ false = ground arith in rw (no_space, skip_space)

-- Reading a printed number that fits the width gives it back.
pub scan_unsigned-print_unsigned :
    (width n : ℕ) (r : Bytes)
    → n < 2 ^ width
    → n < 2 ^ 64
    → EndsNumber r
    → scan_unsigned width (print_unsigned n ++ r) ≡ (some n, r)
unfolding scan_unsigned print_unsigned
scan_unsigned-print_unsigned width n r h k q =
    let (d, s, e, p) = digits-head 19 n in
    let scanned : scan_digits 0 (d ∷ (s ++ r)) ≡ (n, r) =
      sym (ap (λ t. scan_digits 0 (t ++ r)) e)
      ∙ scan_digits-digits 20 n r (omega arith)
      ∙ scan_digits_end n r q in
    ap (λ t. scan_signed width (skip_space (t ++ r))) e
    ∙ ap (scan_signed width) (skip_space_digit d (s ++ r) p)
    ∙ scan_signed_digit width d n (s ++ r) r p (scan_magnitude_digit d n (s ++ r) r p scanned k) h

-- Also after a space, as in the format.
pub scan_unsigned_space :
    (width : ℕ) (text : Bytes) → scan_unsigned width (32 ∷ text) ≡ scan_unsigned width text
unfolding scan_unsigned skip_space
scan_unsigned_space width text = refl
