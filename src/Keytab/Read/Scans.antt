-- ===== src/Keytab/Read/Scans.antt =====
-- The reads of lib/keytab.c on bytes that its writer has stored.
use shishi.Base.{
  ℕ, suc, ◌+◌, ◌/◌, ◌%◌, ◌<◌, ◌≡◌, ◌≢◌, refl, sym, ◌∙◌, ap, ap₂, Bool, List, [], ◌∷◌, ◌++◌,
  append_assoc, append-nil, Bytes, All, length, length-append, take-append_self, drop-append_self,
  leb, ◌||◌, Bool-cases, inl, inr, arith, le→ltb_false,
}
use shishi.Outcome.{Outcome, ok, then_ok}
use shishi.Wire.{
  be16, be32, IsUint32, IsPlain16, IsPlain32, char16_eq, char32_eq, masked32_eq, char_int16_eq,
}
use shishi.Keytab.{
  Cursor, skip, next, next16, next_int16, next32, next_masked32, string_at, c_string,
}
use shishi.Keytab.Read.{peek, copy_of, component_length, read_components}
use shishi.Keytab.Write.{write_components, components_length}

abbrev pub at : ℕ → Bytes → Cursor
at p s = record { pos = p; left = s }

abbrev moved : {A : Type 0} → A → ℕ → Bytes → Outcome (A × Cursor)
moved a p s = ok (a, at p s)

pub next16-be16 :
    (i p : ℕ) (s : Bytes) → IsPlain16 i → next16 (at p (be16 i s)) ≡ ok (i, at (p + 2) s)
unfolding next16 next
next16-be16 i p s h = ap₂ (λ v q. ok (v, at q s)) (char16_eq i h) (omega arith)

pub next_int16-be16 :
    (i p : ℕ) (s : Bytes)
    → i < 0x8000
    → i % 0x100 < 0x80
    → next_int16 (at p (be16 i s)) ≡ ok (i, at (p + 2) s)
unfolding next_int16 next
next_int16-be16 i p s h k = ap₂ (λ v q. ok (v, at q s)) (char_int16_eq i h k) (omega arith)

pub next32-be32 :
    (i p : ℕ) (s : Bytes) → IsPlain32 i → next32 (at p (be32 i s)) ≡ ok (i, at (p + 4) s)
unfolding next32 next
next32-be32 i p s h = ap₂ (λ v q. ok (v, at q s)) (char32_eq i h) (omega arith)

pub next_masked32-be32 :
    (i p : ℕ) (s : Bytes) → IsUint32 i → next_masked32 (at p (be32 i s)) ≡ ok (i, at (p + 4) s)
unfolding next_masked32 next
next_masked32-be32 i p s h = ap₂ (λ v q. ok (v, at q s)) (masked32_eq i h) (omega arith)

pub next_byte : (b p : ℕ) (s : Bytes) → next (at p (b ∷ s)) ≡ ok (b, at (p + 1) s)
unfolding next
next_byte b p s = refl

pub skip-append :
    (d : Bytes) (p : ℕ) (s : Bytes) → skip (length d) (at p (d ++ s)) ≡ ok (tt, at (p + length d) s)
unfolding skip
skip-append d p s = ap (λ x. ok (tt, at (p + length d) x)) (drop-append_self (length d) d s refl)

-- No byte is a zero.
abbrev pub IsString : Bytes → Type 0
IsString s = All (λ b. b ≢ 0) s

pub string_at-append :
    (d acc s : Bytes) → IsString d → string_at (length d) acc (d ++ s) ≡ ok (acc ++ d, s)
unfolding string_at
string_at-append [] acc s h = ap (λ x. ok (x, s)) (sym (append-nil acc))
string_at-append (b ∷ d) acc s h =
    ground (arith, string_at-append d (acc ++ b ∷ []) s h.1, append_assoc acc (b ∷ []) d)

pub c_string_lem : (d : Bytes) → IsString d → c_string d ≡ d
unfolding c_string
c_string_lem [] h = refl
c_string_lem (b ∷ d) h = ground (arith, c_string_lem d h.1)

-- A component that the file format and the reader's signed characters carry.
abbrev pub IsComponent : Bytes → Type 0
IsComponent c =
    (c ≢ []) × All (λ b. (b ≢ 0) × (b ≢ b'/')) c × (length c < 0x8000) × (length c % 0x100 < 0x80)

-- the components, each with a '/' behind it
abbrev pub slashed : List Bytes → Bytes
slashed [] = []
slashed (c ∷ cs) = c ++ (b'/' ∷ slashed cs)

component_length-be16 :
    (l : ℕ) (c : Cursor)
    → l < 0x8000
    → l % 0x100 < 0x80
    → component_length (l / 0x100 % 0x100) (l % 0x100) c ≡ ok (l, c)
unfolding component_length
component_length-be16 l c h k = elim (Bool-cases test) [
  | inl t ↦ absurd (ground arith)
  | inr f ↦ rw f (ap (λ x. ok (x, c)) (omega arith))
]
  where
    test : Bool
    test = leb 0x80 (l / 0x100 % 0x100) || leb 0x80 (l % 0x100)

pub peek_ok :
    {A : Type 0} (f : Bytes → Outcome A) (c : Cursor) {a : A}
    → f c.left ≡ ok a
    → peek f c ≡ ok (a, c)
peek_ok f c e = rw (e, peek)

copy_of-append : (d s : Bytes) → copy_of (length d) (d ++ s) ≡ ok d
unfolding copy_of
copy_of-append d s =
    rw (le→ltb_false (length (d ++ s)) (length d) (omega (arith, length-append d s)))
      (ap ok (take-append_self (length d) d s refl))

read_component :
    (n p : ℕ) (name c s : Bytes)
    → length c < 0x8000
    → length c % 0x100 < 0x80
    → read_components (suc n) name (at p (be16 (length c) (c ++ s)))
      ≡ read_components n (name ++ (c ++ b'/' ∷ [])) (at (p + 2 + length c) s)
unfolding read_components next
read_component n p name c s h k =
    then_ok (component_length (length c / 0x100 % 0x100) (length c % 0x100)) _
      (component_length-be16 (length c) (at (p + 1 + 1) (c ++ s)) h k)
      (then_ok (peek (copy_of (length c))) _ (peek_ok (copy_of (length c)) _ (copy_of-append c s)) (
        then_ok (skip (length c)) _ (skip-append c (p + 1 + 1) s)
          (ap (λ q. read_components n (name ++ (c ++ b'/' ∷ [])) (at q s)) (omega arith))))

pub read_components_lem :
    (cs : List Bytes) (p : ℕ) (name s : Bytes)
    → All IsComponent cs
    → read_components (length cs) name (at p (write_components cs s))
      ≡ ok (name ++ slashed cs, at (p + components_length cs) s)
unfolding components_length read_components
read_components_lem [] p name s h =
    ap₂ (λ x q. ok (x, at q s)) (sym (append-nil name)) (omega arith)
read_components_lem (c ∷ cs) p name s h =
    read_component (length cs) p name c (write_components cs s) h.0.2 h.0.3
    ∙ read_components_lem cs (p + 2 + length c) (name ++ (c ++ b'/' ∷ [])) s h.1
    ∙ ap₂ (λ x q. ok (x, at q s)) (simp append_assoc) (omega arith)
