-- ===== src/Crypto/Ocadd.antt =====
-- What ocadd of lib/crypto.c adds.
use shishi.Base.{
  ℕ, zero, suc, ◌+◌, ◌-◌, ◌*◌, ◌%◌, ◌<◌, ◌≤◌, true, false, [], ◌∷◌, none, some, Bytes, length, ltb,
  ◌==◌, if◌then◌else◌, All, ◌≡◌, refl, sym, ap, arith, Bool-cases, Option-cases, ==_iff, inl, inr,
  ◌⊎◌,
}
use shishi.Crypto.{add_bytes, increment_last, add_carry, ocadd}

-- The number that bytes are, and the size of their range.
unfoldable pub size : Bytes → ℕ
size [] = 1
size (x ∷ xs) = 256 * size xs

unfoldable pub number : Bytes → ℕ
number [] = 0
number (x ∷ xs) = x * size xs + number xs

-- 256 to the number of 0xFF bytes at the end
unfoldable pub skipped : Bytes → ℕ
skipped [] = 1
skipped (x ∷ xs) = elim (increment_last xs) [
  | some ys ↦ skipped xs
  | none ↦ if x == 0xFF then 256 * size xs else size xs
]

columns :
    (k m x y c p q n1 n2 : ℕ)
    → k * 256 + m ≡ x + y + c
    → c * p + q ≡ n1 + n2
    → k * (256 * p) + (m * p + q) ≡ x * p + n1 + (y * p + n2)
columns k m x y c p q n1 n2 h e =
    let f : (k * 256 + m) * p ≡ (x + y + c) * p = ap (λ r. r * p) h in grind (arith, f, e)

column :
    (x y c : ℕ)
    → x < 256
    → y < 256
    → c ≤ 1
    → ((if ltb 0xFF (x + y + c) then 1 else 0) * 256 + (x + y + c) % 0x100 ≡ x + y + c)
      × ((if ltb 0xFF (x + y + c) then 1 else 0) ≤ 1)
column x y c h k l = (ground arith, ground arith)

abbrev pub IsBytes : Bytes → Type 0
IsBytes s = All (λ b. b < 256) s

size-length : (xs ys : Bytes) → length xs ≡ length ys → size xs ≡ size ys
unfolding size
size-length [] [] h = refl
size-length [] (y ∷ ys) h = absurd (omega arith)
size-length (x ∷ xs) [] h = absurd (omega arith)
size-length (x ∷ xs) (y ∷ ys) h = ap (λ n. 256 * n) (size-length xs ys (omega arith))

add_bytes_lem :
    (xs ys : Bytes)
    → length xs ≡ length ys
    → IsBytes xs
    → IsBytes ys
    → ((add_bytes xs ys).0 * size xs + number ((add_bytes xs ys).1) ≡ number xs + number ys)
      × (size ((add_bytes xs ys).1) ≡ size xs)
      × ((add_bytes xs ys).0 ≤ 1)
unfolding add_bytes number size
add_bytes_lem [] [] h b d = (omega arith, refl, omega arith)
add_bytes_lem [] (y ∷ ys) h b d = absurd (omega arith)
add_bytes_lem (x ∷ xs) [] h b d = absurd (omega arith)
add_bytes_lem (x ∷ xs) (y ∷ ys) h b d =
    let IH = add_bytes_lem xs ys (omega arith) (b.1) (d.1) in
    let l = column x y ((add_bytes xs ys).0) (b.0) (d.0) (IH.2) in
    let k : ℕ = if ltb 0xFF (x + y + (add_bytes xs ys).0) then 1 else 0 in
    let m : ℕ = (x + y + (add_bytes xs ys).0) % 0x100 in
    let e =
      columns k m x y ((add_bytes xs ys).0) (size xs) (number ((add_bytes xs ys).1)) (number xs)
        (number ys) (l.0) (IH.0) in
    (rw (IH.1, sym (size-length xs ys (omega arith))) e, ap (λ n. 256 * n) (IH.1), l.1)

add_bytes-IsBytes : (xs ys : Bytes) → IsBytes ((add_bytes xs ys).1)
unfolding add_bytes
add_bytes-IsBytes [] ys = tt
add_bytes-IsBytes (x ∷ xs) [] = tt
add_bytes-IsBytes (x ∷ xs) (y ∷ ys) = (omega arith, add_bytes-IsBytes xs ys)

number-size : (s : Bytes) → IsBytes s → number s < size s
unfolding number size
number-size [] h = omega arith
number-size (x ∷ xs) h = below x (size xs) (number xs) (h.0) (number-size xs (h.1))
  where
    below : (x p n : ℕ) → x < 256 → n < p → x * p + n < 256 * p
    below x p n h k =
        let e : (255 - x + x) * p ≡ 255 * p = ap (λ r. r * p) (omega arith) in grind (arith, e, k)

module _ (x : ℕ) (xs : Bytes) where
  increment_some :
      (ys : Bytes)
      → increment_last xs ≡ some ys
      → (increment_last (x ∷ xs) ≡ some (x ∷ ys)) × (skipped (x ∷ xs) ≡ skipped xs)
  unfolding increment_last skipped
  increment_some ys h = (rw (h, increment_last), rw (h, skipped))

  increment_full :
      increment_last xs ≡ none
      → x == 0xFF ≡ true
      → (increment_last (x ∷ xs) ≡ none) × (skipped (x ∷ xs) ≡ 256 * size xs)
  unfolding increment_last skipped
  increment_full h q = (rw (h, increment_last, q), rw (h, skipped, q))

  increment_here :
      increment_last xs ≡ none
      → x == 0xFF ≡ false
      → (increment_last (x ∷ xs) ≡ some ((x + 1) ∷ xs)) × (skipped (x ∷ xs) ≡ size xs)
  unfolding increment_last skipped
  increment_here h q = (rw (h, increment_last, q), rw (h, skipped, q))

increment_last-none : (s : Bytes) → increment_last s ≡ none → number s + 1 ≡ size s
unfolding number size
increment_last-none [] h = omega arith
increment_last-none (x ∷ xs) h = elim (Option-cases (increment_last xs)) [
  | inl n ↦ elim (Bool-cases (x == 0xFF)) [
    | inl q ↦
        let v : x ≡ 0xFF = (==_iff x 0xFF).0 q in
        let IH = increment_last-none xs n in
        let m : x * size xs ≡ 0xFF * size xs = ap (λ r. r * size xs) v in omega (arith, IH, m)
    | inr q ↦ let f = increment_here x xs n q in cc
  ]
  | inr (ys, e) ↦ let f = increment_some x xs ys e in cc
]

-- What the carry adds: one times the range of the bytes that it passes over.
increment_last_lem :
    (s : Bytes)
    → (increment_last s ≡ none)
      ⊎ ((t : Bytes) × (increment_last s ≡ some t)
          × (number t ≡ number s + skipped s)
          × (size t ≡ size s))
unfolding number size increment_last
increment_last_lem [] = inl refl
increment_last_lem (x ∷ xs) = elim (increment_last_lem xs) [
  | inl n ↦ elim (Bool-cases (x == 0xFF)) [
    | inl q ↦ inl ((increment_full x xs n q).0)
    | inr q ↦
        let f = increment_here x xs n q in
        let g = f.1 in inr ((x + 1) ∷ xs, f.0, grind (arith, g), refl)
  ]
  | inr (ys, e, m, l) ↦
      let f = increment_some x xs ys e in
      let g = f.1 in
      let k : x * size ys ≡ x * size xs = ap (λ r. x * r) l in
      inr (x ∷ ys, f.0, omega (arith, g, m, k), ap (λ r. 256 * r) l)
]

-- For two numbers of the same number of bytes `ocadd` gives their sum where it fits. Where it does
-- not, it takes off the range and adds back, in place of 1, a power of 256: the range of the 0xFF
-- bytes at the end of the sum.
pub ocadd_lem :
    (add1 add2 : Bytes)
    → length add1 ≡ length add2
    → IsBytes add1
    → IsBytes add2
    → ((number add1 + number add2 < size add1)
        × (number (ocadd add1 add2) ≡ number add1 + number add2))
      ⊎ ((size add1 ≤ number add1 + number add2)
          × (number (ocadd add1 add2) + size add1
              ≡ number add1 + number add2 + skipped ((add_bytes add1 add2).1)))
unfolding ocadd add_carry
ocadd_lem add1 add2 h b d =
    go (add_bytes add1 add2) (add_bytes_lem add1 add2 h b d)
      (number-size ((add_bytes add1 add2).1) (add_bytes-IsBytes add1 add2)) (number-size add1 b)
      (number-size add2 d)
  where
    go :
        (r : ℕ × Bytes)
        → (r.0 * size add1 + number (r.1) ≡ number add1 + number add2)
          × (size (r.1) ≡ size add1)
          × (r.0 ≤ 1)
        → number (r.1) < size (r.1)
        → number add1 < size add1
        → number add2 < size add2
        → ((number add1 + number add2 < size add1)
            × (number (add_carry (r.0) (r.1)) ≡ number add1 + number add2))
          ⊎ ((size add1 ≤ number add1 + number add2)
              × (number (add_carry (r.0) (r.1)) + size add1
                  ≡ number add1 + number add2 + skipped (r.1)))
    go (zero, s) (e, l, k) u v w = inl (omega arith, omega arith)
    go (suc zero, s) (e, l, k) u v w = elim (increment_last_lem s) [
      | inl n ↦
          let f = increment_last-none s n in let z = size-length add1 add2 h in absurd (omega arith)
      | inr (t, i, m, z) ↦ inr (omega arith, rw (i, add_carry) (omega arith))
    ]
    go (suc (suc c), s) (e, l, k) u v w = absurd (omega arith)
