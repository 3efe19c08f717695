-- ===== src/Tests/Folds.antt =====
-- The examples of RFC 3961 for the n-fold operation.
use shishi.Base.{[], ◌∷◌, ◌≡◌, refl}
use shishi.Outcome.{ok, overrun}
use shishi.Crypto.NFold.{n_fold}

-- 64-fold("012345")
n_fold_digits :
    n_fold (b'0' ∷ b'1' ∷ b'2' ∷ b'3' ∷ b'4' ∷ b'5' ∷ []) 8
    ≡ ok (0xBE ∷ 0x07 ∷ 0x26 ∷ 0x31 ∷ 0x27 ∷ 0x6B ∷ 0x19 ∷ 0x55 ∷ [])
unfolding n_fold
n_fold_digits = refl

-- 64-fold("kerberos")
n_fold_kerberos :
    n_fold (b'k' ∷ b'e' ∷ b'r' ∷ b'b' ∷ b'e' ∷ b'r' ∷ b'o' ∷ b's' ∷ []) 8
    ≡ ok (b'k' ∷ b'e' ∷ b'r' ∷ b'b' ∷ b'e' ∷ b'r' ∷ b'o' ∷ b's' ∷ [])
unfolding n_fold
n_fold_kerberos = refl

-- 56-fold("password")
n_fold_password :
    n_fold (b'p' ∷ b'a' ∷ b's' ∷ b's' ∷ b'w' ∷ b'o' ∷ b'r' ∷ b'd' ∷ []) 7
    ≡ ok (0x78 ∷ 0xA0 ∷ 0x7B ∷ 0x6C ∷ 0xAF ∷ 0x85 ∷ 0xFA ∷ [])
unfolding n_fold
n_fold_password = refl

n_fold_nothing : n_fold [] 8 ≡ overrun
unfolding n_fold
n_fold_nothing = refl
