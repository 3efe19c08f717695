-- ===== src/Keytab/Read/Hang.antt =====
-- The integrity check of shishi_keys_add_keytab_mem on sizes that are read as negative.
use shishi.Base.{
  ℕ, zero, suc, ◌+◌, ◌^◌, ◌≤◌, ◌<◌, ◌≡◌, ◌⊎◌, refl, ◌∙◌, List, ◌∷◌, Bytes, none, some, length, drop,
  ltb, if◌then◌else◌, arith, le→ltb_false,
}
use shishi.Outcome.{ok, failed, keytab_error}
use shishi.Wire.{char16, char32}
use shishi.Key.{Key}
use shishi.Keytab.{next, next32}
use shishi.Keytab.Read.{add_size, check_entries, keys_add_keytab_mem}

next32_lem :
    (a b c d p : ℕ) (rest : Bytes)
    → next32 (record { pos = p; left = a ∷ b ∷ c ∷ d ∷ rest })
      ≡ ok (char32 a b c d, record { pos = p + 1 + 1 + 1 + 1; left = rest })
unfolding next32 next
next32_lem a b c d p rest = refl

-- one round of the check, on the size that it reads
pub check_round :
    (fuel p a b c d : ℕ) (s rest : Bytes)
    → p < length s
    → drop p s ≡ a ∷ b ∷ c ∷ d ∷ rest
    → check_entries (suc fuel) s p ≡ (
        if ltb (length s) (add_size (p + 4) (char32 a b c d))
        then some (failed keytab_error)
        else check_entries fuel s (add_size (p + 4) (char32 a b c d)))
unfolding check_entries
check_round fuel p a b c d s rest h e = ground (arith, next32_lem a b c d p rest)

-- A size whose last byte is 0xFC is read as -4, whatever its other bytes: the check comes back to
-- the same entry.
check_entries_hangs :
    (fuel p a b c : ℕ) (s rest : Bytes)
    → p < length s
    → length s < 2 ^ 64
    → drop p s ≡ a ∷ b ∷ c ∷ 0xFC ∷ rest
    → check_entries fuel s p ≡ none
check_entries_hangs zero p a b c s rest h small e = unfold check_entries in refl
check_entries_hangs (suc fuel) p a b c s rest h small e =
    check_round fuel p a b c 0xFC s rest h e
    ∙ rw (back p (omega arith), le→ltb_false (length s) p (omega arith))
        (check_entries_hangs fuel p a b c s rest h small e)
  where
    back : (q : ℕ) → q < 2 ^ 64 → add_size (q + 4) (char32 a b c 0xFC) ≡ q
    back q small = unfold char32 in omega arith

-- A keytab file whose first entry size ends in the byte 0xFC, as a valid entry of 252 bytes does,
-- is never read to an end: no amount of fuel gives a result.
pub keys_add_keytab_mem_hangs :
    (fuel v a b c : ℕ) (rest : Bytes) (keys : List Key)
    → (v ≡ 0x01) ⊎ (v ≡ 0x02)
    → length rest < 2 ^ 63
    → keys_add_keytab_mem fuel (0x05 ∷ v ∷ a ∷ b ∷ c ∷ 0xFC ∷ rest) keys ≡ none
unfolding keys_add_keytab_mem char16
keys_add_keytab_mem_hangs fuel v a b c rest keys h small =
    ground (arith, check_entries_hangs fuel 2 a b c (0x05 ∷ v ∷ a ∷ b ∷ c ∷ 0xFC ∷ rest) rest)

-- A keytab file whose first entry size ends in a byte from 0x80 to 0xF9 is refused with
-- SHISHI_KEYTAB_ERROR, whatever the other bytes of the size and the rest of the file are.
pub keys_add_keytab_mem_refuses :
    (fuel v a b c d : ℕ) (rest : Bytes) (keys : List Key)
    → (v ≡ 0x01) ⊎ (v ≡ 0x02)
    → 0x80 ≤ d
    → d ≤ 0xF9
    → length rest < 2 ^ 63
    → keys_add_keytab_mem (suc fuel) (0x05 ∷ v ∷ a ∷ b ∷ c ∷ d ∷ rest) keys
      ≡ some (failed keytab_error)
unfolding keys_add_keytab_mem char16 char32
keys_add_keytab_mem_refuses fuel v a b c d rest keys h lo hi small =
    ground (arith, check_round fuel 2 a b c d (0x05 ∷ v ∷ a ∷ b ∷ c ∷ d ∷ rest) rest)
