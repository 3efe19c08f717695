-- ===== src/Keytab/Read/File.antt =====
-- Whole keytab files: what shishi_keys_to_keytab_mem stores, shishi_keys_add_keytab_mem reads back.
use shishi.Base.{
  ◌+◌, ◌%◌, ◌≤◌, ◌≡◌, refl, sym, ◌∙◌, ap, false, List, [], ◌∷◌, ◌++◌, append_assoc, Bytes, All,
  length, length-append, length-take_of_le, take-append_self, drop-append_self, take, drop, ltb,
  if◌then◌else◌, arith, le→ltb_false,
}
use shishi.Outcome.{ok}
use shishi.Wire.{be16, be32}
use shishi.Key.{Key, new_key, key_copy, key_length, max_key_len}
use shishi.Keytab.Read.Scans.{IsComponent}
use shishi.Keytab.Read.Names.{name_components-join}
use shishi.Keytab.Read.Entry.{IsExportable, entry_key, entry_size, held_fits}
use shishi.Keytab.Write.{
  components_length, write_components, entry_bytes, key_to_keytab_entry, too_long, to_entry,
  uint16_max, nt_principal,
}

write_components-append :
    (cs : List Bytes) (a b : Bytes) → write_components cs a ++ b ≡ write_components cs (a ++ b)
write_components-append [] a b = refl
write_components-append (c ∷ cs) a b =
    ap (be16 (length c)) (append_assoc c _ b ∙ ap (◌++◌ c) (write_components-append cs a b))

length-write_components :
    (cs : List Bytes) (s : Bytes) → length (write_components cs s) ≡ components_length cs + length s
unfolding components_length
length-write_components [] s = omega arith
length-write_components (c ∷ cs) s =
    omega (arith, length-append c (write_components cs s), length-write_components cs s)

too_long-IsComponent : (cs : List Bytes) → All IsComponent cs → too_long cs ≡ false
unfolding too_long
too_long-IsComponent [] h = refl
too_long-IsComponent (c ∷ cs) h = ground (arith, too_long-IsComponent cs h.1)

module _ (realm : Bytes) (components : List Bytes) (key : Key)
    (h : IsExportable realm components key) where
  pub entry_bytes-append :
      (rest : Bytes)
      → entry_bytes realm components key [] ++ rest ≡ entry_bytes realm components key rest
  entry_bytes-append rest =
      ap
        (λ x.
          be32 (entry_size realm components key) (be16 (length components) (be16 (length realm) x)))
        (append_assoc realm _ rest
          ∙ ap (◌++◌ realm) (
              write_components-append components _ rest
              ∙ ap (write_components components) (
                  ap
                    (λ x. be32 nt_principal (
                      be32 key.timestamp (
                        (if ltb key.kvno 256 then key.kvno % 0x100 else 0)
                        ∷ be16 key.type (be16 (key_length key) x))))
                    (append_assoc (take (key_length key) key.value) _ rest))))

  pub length-entry_bytes :
      length (entry_bytes realm components key []) ≡ entry_size realm components key + 4
  length-entry_bytes = omega (
    arith,
    length-append realm (write_components components (be32 nt_principal (be32 key.timestamp tail))),
    length-write_components components (be32 nt_principal (be32 key.timestamp tail)),
    length-append (take (key_length key) key.value) (be32 key.kvno []),
    length-take_of_le (key_length key) key.value
        (let v = h.value_size in omega (arith, held_fits (key_length key) h.value_held)),
  )
    where
      tail : Bytes
      tail =
          (if ltb key.kvno 256 then key.kvno % 0x100 else 0)
          ∷ be16 key.type
              (be16 (key_length key) (take (key_length key) key.value ++ be32 key.kvno []))

  value_fits : key_length key ≤ max_key_len
  value_fits = held_fits (key_length key) h.value_held

  to_entry_lem : to_entry realm components key ≡ ok (entry_bytes realm components key [])
  unfolding to_entry
  to_entry_lem =
      let (_, realm_fits) = h.realm_string in
      rw (
        le→ltb_false uint16_max (length realm) (omega arith),
        le→ltb_false uint16_max (key_length key) (omega (arith, value_fits)),
        too_long-IsComponent components h.components_fit.0,
        le→ltb_false (length key.value) (key_length key)
            (let v = h.value_size in omega (arith, value_fits)),
      )

  pub key_to_keytab_entry_lem : key_to_keytab_entry key ≡ ok (entry_bytes realm components key [])
  unfolding key_to_keytab_entry
  key_to_keytab_entry_lem =
      rw (h.realm_is, h.principal_is, name_components-join components h.components_fit.0)
        to_entry_lem

  pub drop-entry_bytes :
      (rest : Bytes)
      → drop (entry_size realm components key + 4) (entry_bytes realm components key rest) ≡ rest
  drop-entry_bytes rest =
      ap (drop (entry_size realm components key + 4)) (sym (entry_bytes-append rest))
      ∙ drop-append_self _ (entry_bytes realm components key []) rest length-entry_bytes

  -- The set's copy of the key that was read is the copy of the key that was stored.
  pub key_copy-entry_key : (old : Key) → key_copy new_key (entry_key key old) ≡ key_copy new_key key
  unfolding key_copy
  key_copy-entry_key old = rw h.value_held (
      ap (λ v. record key { value = v ++ drop (key_length key) new_key.value })
        (take-append_self (key_length key) (take (key_length key) key.value) _ (
          length-take_of_le (key_length key) key.value
            (let v = h.value_size in omega (arith, value_fits)))))
