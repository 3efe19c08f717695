-- ===== src/Base/Strings.antt =====
-- C strings and byte arrays compared.
use Prim.Native.Char.{code}
use Prim.Native.String.{String}
use mathlib.Core.Path.{◌≡◌, refl}
use mathlib.Core.Bool.{Bool, true, false, ◌&&◌}
use mathlib.Core.List.{[], ◌∷◌}
use native.Mathlib.Omega.{arith}
use shishi.Base.Tests.{◌==◌}
use shishi.Base.Lists.{Bytes}

-- The bytes of an ASCII text
abbrev pub codes : String → Bytes
codes String.[] = []
codes (String.◌∷◌ c s) = code c ∷ codes s

-- `strcmp (a, b) == 0`, and `memcmp` of arrays of one length
abbrev pub str_equal : Bytes → Bytes → Bool
str_equal [] [] = true
str_equal [] (d ∷ ds) = false
str_equal (c ∷ cs) [] = false
str_equal (c ∷ cs) (d ∷ ds) = (c == d) && str_equal cs ds

pub str_equal_self : (s : Bytes) → str_equal s s ≡ true
str_equal_self [] = refl
str_equal_self (c ∷ cs) = ground (arith, str_equal_self cs)

pub eq_of_str_equal : (s t : Bytes) → str_equal s t ≡ true → s ≡ t
eq_of_str_equal [] [] h = refl
eq_of_str_equal [] (d ∷ ds) h = cc
eq_of_str_equal (c ∷ cs) [] h = cc
eq_of_str_equal (c ∷ cs) (d ∷ ds) h = ground (arith, eq_of_str_equal cs ds)
