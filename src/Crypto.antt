-- ===== src/Crypto.antt =====
-- Generic cryptography: ocadd of lib/crypto.c, the addition of the n-fold operation. A number is
-- the list of its bytes, the most significant first.
pub mod Ocadd
pub mod NFold
pub mod Derive
pub mod Simplified
use shishi.Base.{
  ℕ, zero, suc, ◌+◌, ◌%◌, Bool, true, false, [], ◌∷◌, Option, none, some, Bytes, length, replicate,
  ltb, ◌==◌, if◌then◌else◌,
}

-- The loop from the last byte to the first, with the carry out of it.
unfoldable pub add_bytes : Bytes → Bytes → ℕ × Bytes
add_bytes (x ∷ xs) (y ∷ ys) =
    let r = add_bytes xs ys in
    let tmpsum = x + y + r.0 in (if ltb 0xFF tmpsum then 1 else 0, tmpsum % 0x100 ∷ r.1)
add_bytes _ _ = (0, [])

-- The loop that adds the carry: it adds one to the last byte that is not 0xFF, and leaves the bytes
-- behind that one alone. `none` is that it found no such byte.
unfoldable pub increment_last : Bytes → Option Bytes
increment_last [] = none
increment_last (x ∷ xs) = elim (increment_last xs) [
  | some ys ↦ some (x ∷ ys)
  | none ↦ if x == 0xFF then none else some ((x + 1) ∷ xs)
]

unfoldable pub add_carry : ℕ → Bytes → Bytes
unfolding increment_last
add_carry zero sum = sum
add_carry (suc carry) sum = elim (increment_last sum) [
  | none ↦ replicate (length sum) 0
  | some incremented ↦ incremented
]

unfoldable pub ocadd : Bytes → Bytes → Bytes
unfolding add_bytes add_carry
ocadd add1 add2 = let r = add_bytes add1 add2 in add_carry (r.0) (r.1)
