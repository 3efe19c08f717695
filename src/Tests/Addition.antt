-- ===== src/Tests/Addition.antt =====
-- Sums of the n-fold operation: the tests of Crypto.
use shishi.Base.{◌+◌, ◌<◌, ◌≤◌, [], ◌∷◌, Bytes, ◌≡◌, ◌⊎◌, refl, arith}
use shishi.Crypto.{ocadd, add_bytes, increment_last, add_carry}
use shishi.Crypto.Ocadd.{ocadd_lem, number, size, skipped}

abbrev ones : Bytes
ones = 0xFF ∷ 0xFF ∷ []

abbrev high_one : Bytes
high_one = 0x01 ∷ 0x00 ∷ []

-- 0xFFFF + 0x0100 with the carry brought round is 0x0100
ocadd_carry : ocadd ones high_one ≡ 0x01 ∷ 0xFF ∷ []
unfolding ocadd add_bytes add_carry increment_last
ocadd_carry = refl

ocadd_lem_example :
    ((number ones + number high_one < size ones)
      × (number (ocadd ones high_one) ≡ number ones + number high_one))
    ⊎ ((size ones ≤ number ones + number high_one)
        × (number (ocadd ones high_one) + size ones
            ≡ number ones + number high_one + skipped ((add_bytes ones high_one).1)))
ocadd_lem_example =
    ocadd_lem ones high_one refl (omega arith, (omega arith, tt)) (omega arith, (omega arith, tt))
