-- ===== src/Wire.antt =====
-- Big-endian integers in byte buffers, as lib/ccache.c and lib/keytab.c read and write them.
-- `be16 i rest` is the two bytes of `i` in front of `rest`; a byte is a number below 256.
use shishi.Base.{
  ℕ, ◌+◌, ◌*◌, ◌/◌, ◌%◌, ◌≤◌, ◌<◌, ◌≡◌, ◌↔◌, ◌⊎◌, ◌∷◌, arith, leb, if◌then◌else◌, Bytes,
}

-- `p[0] << 8 | p[1]` cut to uint16_t, where `p` points to plain `char`: it is signed on the
-- platforms modelled, so a byte from 0x80 on is extended by ones and fills the bits above it.
unfoldable pub char16 : ℕ → ℕ → ℕ
char16 p0 p1 = if leb 0x80 p1 then 0xFF00 + p1 else p0 * 0x100 + p1

-- `p[0] << 24 | p[1] << 16 | p[2] << 8 | p[3]`, likewise, as a 32-bit pattern.
unfoldable pub char32 : ℕ → ℕ → ℕ → ℕ → ℕ
char32 p0 p1 p2 p3 =
    if leb 0x80 p3
    then 0xFFFFFF00 + p3
    else if leb 0x80 p2
    then 0xFFFF0000 + p2 * 0x100 + p3
    else if leb 0x80 p1
    then 0xFF000000 + p1 * 0x10000 + p2 * 0x100 + p3
    else p0 * 0x1000000 + p1 * 0x10000 + p2 * 0x100 + p3

-- The same with each byte masked, `((p[0] << 24) & 0xFF000000) | …`.
unfoldable pub masked32 : ℕ → ℕ → ℕ → ℕ → ℕ
masked32 p0 p1 p2 p3 = p0 * 0x1000000 + p1 * 0x10000 + p2 * 0x100 + p3

abbrev pub be16 : ℕ → Bytes → Bytes
be16 i rest = (i / 0x100 % 0x100) ∷ (i % 0x100) ∷ rest

abbrev pub be32 : ℕ → Bytes → Bytes
be32 i rest =
    (i / 0x1000000 % 0x100) ∷ (i / 0x10000 % 0x100) ∷ (i / 0x100 % 0x100) ∷ (i % 0x100) ∷ rest

abbrev pub le32 : ℕ → Bytes → Bytes
le32 i rest =
    (i % 0x100) ∷ (i / 0x100 % 0x100) ∷ (i / 0x10000 % 0x100) ∷ (i / 0x1000000 % 0x100) ∷ rest

abbrev pub IsUint16 : ℕ → Type 0
IsUint16 i = i < 0x10000

abbrev pub IsUint32 : ℕ → Type 0
IsUint32 i = i < 0x100000000

-- A 16-bit value that survives a reading through signed characters.
abbrev pub IsPlain16 : ℕ → Type 0
IsPlain16 i = IsUint16 i × ((i % 0x100 < 0x80) ⊎ (0xFF00 ≤ i))

-- A 32-bit value with the top bits of its three low bytes clear.
abbrev pub IsPlain32 : ℕ → Type 0
IsPlain32 i =
    IsUint32 i × (i % 0x100 < 0x80) × (i / 0x100 % 0x100 < 0x80) × (i / 0x10000 % 0x100 < 0x80)

pub char16_iff :
    (i : ℕ)
    → IsUint16 i
    → (char16 (i / 0x100 % 0x100) (i % 0x100) ≡ i) ↔ ((i % 0x100 < 0x80) ⊎ (0xFF00 ≤ i))
unfolding char16
char16_iff i h = (λ e. ground arith, λ e. ground arith)

pub char16_eq : (i : ℕ) → IsPlain16 i → char16 (i / 0x100 % 0x100) (i % 0x100) ≡ i
char16_eq i (u, p) = (char16_iff i u).1 p

pub char32_eq :
    (i : ℕ)
    → IsPlain32 i
    → char32 (i / 0x1000000 % 0x100) (i / 0x10000 % 0x100) (i / 0x100 % 0x100) (i % 0x100) ≡ i
unfolding char32
char32_eq i h = ground arith

pub masked32_eq :
    (i : ℕ)
    → IsUint32 i
    → masked32 (i / 0x1000000 % 0x100) (i / 0x10000 % 0x100) (i / 0x100 % 0x100) (i % 0x100) ≡ i
unfolding masked32
masked32_eq i h = omega arith

-- `p[0] << 8 | p[1]` kept as a 32-bit `int`.
unfoldable pub char_int16 : ℕ → ℕ → ℕ
char_int16 p0 p1 =
    if leb 0x80 p1
    then 0xFFFFFF00 + p1
    else if leb 0x80 p0
    then 0xFFFF0000 + p0 * 0x100 + p1
    else p0 * 0x100 + p1

pub char_int16_eq :
    (i : ℕ) → i < 0x8000 → i % 0x100 < 0x80 → char_int16 (i / 0x100 % 0x100) (i % 0x100) ≡ i
unfolding char_int16
char_int16_eq i u h = ground arith
