-- ===== src/Crypto/NFold.antt =====
-- The n-fold operation: gcd, lcm, rot13 and shishi_n_fold of lib/crypto.c. A bit is named by its
-- place in the string, the highest bit of the first byte being 0; a byte is below 256. Lengths are
-- small enough for `int`.
use Prim.Native.Nat.{bit_and, bit_or}
use shishi.Base.{
  ℕ, zero, suc, ◌+◌, ◌-◌, ◌*◌, ◌/◌, ◌%◌, ◌^◌, Bool, true, false, [], ◌∷◌, ◌++◌, Bytes, length, take,
  drop, replicate, ◌==◌, ◌||◌, if◌then◌else◌,
}
use shishi.Outcome.{Outcome, ok, overrun}
use shishi.Crypto.{ocadd}

-- The recursion of `gcd`, with fuel for each call: `b` falls.
unfoldable pub gcd_calls : ℕ → ℕ → ℕ → ℕ
gcd_calls zero a b = a
gcd_calls (suc fuel) a b = elim (b == 0) [ true ↦ a | false ↦ gcd_calls fuel b (a % b) ]

unfoldable pub gcd : ℕ → ℕ → ℕ
unfolding gcd_calls
gcd a b = gcd_calls (suc b) a b

unfoldable pub lcm : ℕ → ℕ → ℕ
unfolding gcd
lcm a b = a * b / gcd a b

-- `buf[i]`, 0 outside
abbrev pub byte_at : Bytes → ℕ → ℕ
byte_at [] i = 0
byte_at (x ∷ xs) zero = x
byte_at (x ∷ xs) (suc i) = byte_at xs i

-- `buf[i] = v`
abbrev pub set_byte : Bytes → ℕ → ℕ → Bytes
set_byte [] i v = []
set_byte (x ∷ xs) zero v = v ∷ xs
set_byte (x ∷ xs) (suc i) v = x ∷ set_byte xs i v

-- `(x & ~mask) | (on ? mask : 0)`, for the mask of bit `k`
abbrev pub put_bit : ℕ → ℕ → Bool → ℕ
put_bit x k on = bit_or (bit_and x (255 - 2 ^ (7 - k))) (if on then 2 ^ (7 - k) else 0)

-- `x & (1 << (7 - k))`
abbrev pub bit_set : ℕ → ℕ → Bool
bit_set x k = if bit_and x (2 ^ (7 - k)) == 0 then false else true

-- One turn of the loop of rot13: bit `i` becomes bit `i - 13`, in place.
abbrev pub copy_bit : Bytes → ℕ → Bytes
copy_bit buf i =
    set_byte buf (i / 8)
      (put_bit (byte_at buf (i / 8)) (i % 8) (bit_set (byte_at buf ((i - 13) / 8)) ((i - 13) % 8)))

-- `for (i = …; i >= 13; i--)`, `rounds` turns from bit 12 + rounds down.
unfoldable pub copy_bits : ℕ → Bytes → Bytes
copy_bits zero buf = buf
copy_bits (suc rounds) buf = copy_bits rounds (copy_bit buf (13 + rounds))

-- The last two lines of rot13, on what the loop leaves.
unfoldable pub finish_rot13 : ℕ → ℕ → Bytes → Bytes
finish_rot13 nexttolast last buf =
    let buf0 = set_byte buf 0 (bit_or (nexttolast * 8 % 256) (last / 32)) in
    set_byte buf0 1 (bit_or (bit_and (byte_at buf0 1) 7) (last * 8 % 256))

-- `in` and `out` are the same buffer in shishi_n_fold.
unfoldable pub rot13 : Bytes → Bytes
unfolding copy_bits finish_rot13
rot13 [] = []
rot13 (x ∷ []) = bit_or (x / 32) (x * 8 % 256) ∷ []
rot13 (x ∷ y ∷ rest) =
    let buf = x ∷ y ∷ rest in
    let len = length buf in
    finish_rot13 (byte_at buf (len - 2)) (byte_at buf (len - 1)) (copy_bits (8 * len - 13) buf)

-- The replications: each is the last one rotated.
unfoldable pub replications : ℕ → Bytes → Bytes
unfolding rot13
replications zero a = []
replications (suc k) a = a ++ replications k (rot13 a)

-- The sum of the chunks of `n` bytes, added to `out`.
unfoldable pub add_chunks : ℕ → ℕ → Bytes → Bytes → Bytes
unfolding ocadd
add_chunks zero n out buf = out
add_chunks (suc k) n out buf = add_chunks k n (ocadd out (take n buf)) (drop n buf)

-- A division by zero, of no bytes or into no bytes, is undefined in C as an overrun is.
unfoldable pub n_fold : Bytes → ℕ → Outcome Bytes
unfolding lcm replications add_chunks
n_fold input n =
    let m = length input in
    let lcmmn = lcm m n in
    if m == 0 || n == 0
    then overrun
    else ok (add_chunks (lcmmn / n) n (replicate n 0) (replications (lcmmn / m) input))
