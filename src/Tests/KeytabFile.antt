-- ===== src/Tests/KeytabFile.antt =====
-- Runs and instances for keytab files.
use mathlib.Core.List.{map}
use shishi.Base.{
  ◌<◌, ◌^◌, ◌≡◌, refl, [], ◌∷◌, Bytes, none, some, length, replicate, arith, inl, inr,
}
use shishi.Outcome.{ok, failed, keytab_error}
use shishi.Cipher.{cipher_keylen}
use shishi.Key.{Key, new_key, key_copy}
use shishi.Keytab.Write.{
  keys_to_keytab_mem, tokens_from, components_length, too_long, key_to_keytab_entry, write_keys,
  to_entry,
}
use shishi.Keytab.Read.{keys_add_keytab_mem}
use shishi.Keytab.Read.Hang.{keys_add_keytab_mem_hangs}
use shishi.Keytab.Read.Entry.{IsExportable}
use shishi.Keytab.Read.Whole.{file_bytes, keys_add_keytab_mem-keys_to_keytab_mem}

-- h/a@R, DES
abbrev host_key : Key
host_key = record {
  principal = some (b'h' ∷ b'/' ∷ b'a' ∷ []);
  realm = some (b'R' ∷ []);
  type = 3;
  value = 1 ∷ 2 ∷ 3 ∷ 4 ∷ 5 ∷ 6 ∷ 7 ∷ 200 ∷ replicate 24 0;
  kvno = 5;
  timestamp = 1000;
}

host_key-IsExportable : IsExportable (b'R' ∷ []) ((b'h' ∷ []) ∷ (b'a' ∷ []) ∷ []) host_key
unfolding cipher_keylen components_length
host_key-IsExportable = record {
  realm_is = refl;
  principal_is = refl;
  realm_string = (omega arith, (omega arith, inl (omega arith)));
  some_component = λ e. cc;
  components_fit = (
    (
      (λ e. cc, omega arith, omega arith, omega arith),
      ((λ e. cc, omega arith, omega arith, omega arith), tt),
    ),
    (omega arith, inl (omega arith)),
  );
  type_fits = omega arith;
  value_held = refl;
  value_size = refl;
  times_fit = omega arith;
  size_fits = omega arith;
  size_plain = omega arith;
}

abbrev file : Bytes
file = 0x05 ∷ 0x02 ∷ file_bytes (host_key ∷ []) ((_, _, host_key-IsExportable), tt)

file_stored : keys_to_keytab_mem (failed keytab_error) (host_key ∷ []) ≡ ok file
unfolding keys_to_keytab_mem write_keys key_to_keytab_entry to_entry tokens_from too_long
    components_length cipher_keylen
file_stored = refl

file_small : length file < 2 ^ 63
unfolding cipher_keylen
file_small = omega arith

keys_add_keytab_mem-keys_to_keytab_mem_example :
    keys_add_keytab_mem 2 file [] ≡ some (ok (map (key_copy new_key) (host_key ∷ [])))
keys_add_keytab_mem-keys_to_keytab_mem_example =
    keys_add_keytab_mem-keys_to_keytab_mem (host_key ∷ []) [] (failed keytab_error) file 2
      ((_, _, host_key-IsExportable), tt) (λ e. cc) file_stored file_small (omega arith)

keys_add_keytab_mem_hangs_example :
    keys_add_keytab_mem 1000 (0x05 ∷ 0x02 ∷ 0 ∷ 0 ∷ 0 ∷ 0xFC ∷ 0 ∷ 1 ∷ []) [] ≡ none
keys_add_keytab_mem_hangs_example =
    keys_add_keytab_mem_hangs 1000 0x02 0 0 0 (0 ∷ 1 ∷ []) [] (inr refl) (omega arith)
