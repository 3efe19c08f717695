-- ===== src/Server/Framing.antt =====
-- When the buffer of a stream holds a whole request.
use shishi.Base.{
  ℕ, ◌+◌, ◌/◌, ◌%◌, ◌^◌, ◌<◌, false, ◌&&◌, [], ◌∷◌, ◌++◌, Bytes, length, ltb, ◌==◌, ◌≡◌, refl, ap,
  ◌∙◌, arith, length-append,
}
use shishi.Wire.{masked32, be32}
use shishi.Server.{Socket, sock_stream, wait_for, kdc_ready, is_extension}

-- The socket of a stream, by its buffer
abbrev pub stream : Bytes → Socket
stream buf = record { socktype = sock_stream; buf = buf }

pub wait_for-be32 : (n : ℕ) (rest : Bytes) → n < 2 ^ 31 → wait_for (be32 n rest) ≡ n
unfolding wait_for masked32
wait_for-be32 n rest h = ground arith

first_byte : Bytes → ℕ
first_byte [] = 0
first_byte (c ∷ bytes) = c

ready_by_length :
    (w m n k : ℕ)
    → (4 < m → w ≡ n)
    → m + k ≡ n + 4
    → 0 < n
    → n < 2 ^ 31
    → (ltb 4 m && ((w + 4) % 2 ^ 64 == m)) ≡ (k == 0)
ready_by_length w m n k f e p h = ground (arith, f)

-- A part of a request in front of `rest` is the whole request exactly where nothing is left.
pub kdc_ready-part :
    (n : ℕ) (body part rest : Bytes)
    → length body ≡ n
    → 0 < n
    → n < 2 ^ 31
    → part ++ rest ≡ be32 n body
    → kdc_ready (stream part) ≡ (length rest == 0)
unfolding kdc_ready wait_for
kdc_ready-part n body part rest e p h q =
    ready_by_length (wait_for part) (length part) n (length rest) (λ g. by_length part g q)
      (omega (arith, length-append part rest, ap (length {0}) q, e)) p h
  where
    by_length : (part : Bytes) → 4 < length part → part ++ rest ≡ be32 n body → wait_for part ≡ n
    by_length [] g q = absurd (omega arith)
    by_length (a ∷ []) g q = absurd (omega arith)
    by_length (a ∷ b ∷ []) g q = absurd (omega arith)
    by_length (a ∷ b ∷ c ∷ []) g q = absurd (omega arith)
    by_length (a ∷ b ∷ c ∷ d ∷ part) g q = ap wait_for q ∙ wait_for-be32 n body h

-- The first byte of a request is no extension mark.
pub is_extension-part :
    (n : ℕ) (body part rest : Bytes)
    → n < 2 ^ 31
    → part ++ rest ≡ be32 n body
    → is_extension part ≡ false
unfolding first_byte
is_extension-part n body [] rest h q = refl
is_extension-part n body (a ∷ []) rest h q = refl
is_extension-part n body (a ∷ b ∷ []) rest h q = refl
is_extension-part n body (a ∷ b ∷ c ∷ []) rest h q = refl
is_extension-part n body (a ∷ b ∷ c ∷ d ∷ []) rest h q =
    let first : a ≡ n / 0x1000000 % 0x100 = ap first_byte q in ground arith
is_extension-part n body (a ∷ b ∷ c ∷ d ∷ e ∷ part) rest h q = refl
