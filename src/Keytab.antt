-- ===== src/Keytab.antt =====
-- MIT keytab files: lib/keytab.c. Reading goes by a cursor into the data: how far it is from the
-- start of the entry (`pos - entrystartpos`), and the bytes from there to the end of the data. No
-- read tests for the end, so one that passes it is an `overrun`.
pub mod Read
pub mod Write
use shishi.Base.{
  ℕ, zero, suc, ◌+◌, List, [], ◌∷◌, ◌++◌, Bytes, length, take, drop, ◌==◌, if◌then◌else◌,
}
use shishi.Outcome.{Step, ok, overrun, pure, ◌>>=◌, ◌>>◌}
use shishi.Wire.{char16, char32, char_int16, masked32}

pub record Cursor : Type 0 where
  pub pos : ℕ
  pub left : Bytes

abbrev pub Scan : Type 0 → Type 0
Scan = Step Cursor

-- `pos += n`
pub skip : ℕ → Scan (Unit {0})
skip n c = ok (tt, record { pos = c.pos + n; left = drop n c.left })

take_byte : Bytes → ℕ → Scan ℕ
take_byte [] pos c = overrun
take_byte (b ∷ rest) pos c = ok (b, record { pos = pos + 1; left = rest })

-- `data[pos++]`
unfoldable pub next : Scan ℕ
unfolding take_byte
next c = take_byte c.left c.pos c

pub next16 : Scan ℕ
next16 = do p0 ← next; p1 ← next; pure (char16 p0 p1)

pub next_int16 : Scan ℕ
next_int16 = do p0 ← next; p1 ← next; pure (char_int16 p0 p1)

pub next32 : Scan ℕ
next32 = do p0 ← next; p1 ← next; p2 ← next; p3 ← next; pure (char32 p0 p1 p2 p3)

pub next_masked32 : Scan ℕ
next_masked32 = do p0 ← next; p1 ← next; p2 ← next; p3 ← next; pure (masked32 p0 p1 p2 p3)

-- `xstrndup (…, n)`: the bytes up to a zero, at most `n`
unfoldable pub string_at : ℕ → Bytes → Step Bytes Bytes
string_at zero acc s = ok (acc, s)
string_at (suc n) acc [] = overrun
string_at (suc n) acc (b ∷ rest) =
    let more = string_at n (acc ++ b ∷ []) rest in if b == 0 then ok (acc, b ∷ rest) else more

-- a C string is what stands before the first zero
unfoldable pub c_string : Bytes → Bytes
c_string [] = []
c_string (b ∷ rest) = let more = c_string rest in if b == 0 then [] else b ∷ more
