-- ===== src/Keytab/Read/Entry.antt =====
-- One entry: shishi_keys_add_keytab_mem reads back what key_to_keytab_entry stored.
use shishi.Base.{
  ℕ, ◌+◌, ◌-◌, ◌%◌, ◌≤◌, ◌<◌, ◌≡◌, ◌≢◌, refl, sym, ◌∙◌, ap, ap₂, true, some, List, [], ◌∷◌, ◌++◌,
  Bytes, All, length, length-append, length-take_of_le, take-append_self, inl, take, drop, ltb,
  if◌then◌else◌, arith, lt→ltb, le→ltb_false,
}
use shishi.Outcome.{Outcome, ok, then_ok}
use shishi.Wire.{be16, be32, IsUint32, IsPlain16, IsPlain32}
use shishi.Key.{Key, key_value_set, key_type_set, key_length, holds_value, copy_value, max_key_len}
use shishi.Keytab.{Cursor, next, next16, next_int16, next32, next_masked32, skip}
use shishi.Keytab.Read.{
  peek, string_of, read_realm, read_components, principal_of, read_principal, read_times,
  read_value, read_version, read_entry,
}
use shishi.Keytab.Read.Scans.{
  at, next16-be16, next_int16-be16, next32-be32, next_masked32-be32, next_byte, skip-append,
  peek_ok, IsString, IsComponent, slashed, string_at-append, read_components_lem,
}
use shishi.Keytab.Read.Names.{join, principal_of-slashed}
use shishi.Keytab.Write.{
  components_length, write_components, entry_length, entry_bytes, nt_principal,
}

-- A key that the file format and the reader's signed characters carry, with its realm and the
-- components of its principal.
pub record IsExportable (realm : Bytes) (components : List Bytes) (key : Key) : Type 0 where
  pub realm_is : key.realm ≡ some realm
  pub principal_is : key.principal ≡ some (join components)
  pub realm_string : IsString realm × IsPlain16 (length realm)
  pub some_component : components ≢ []
  pub components_fit : All IsComponent components × IsPlain16 (length components)
  pub type_fits : key.type < 0x80
  pub value_held : holds_value (key_length key) ≡ true
  pub value_size : length key.value ≡ max_key_len
  pub times_fit : IsUint32 key.timestamp × IsPlain32 key.kvno
  pub size_fits : entry_length (length realm) components (key_length key) < 0x8000
  pub size_plain : IsPlain32 (entry_length (length realm) components (key_length key) - 4)

pub held_fits : (n : ℕ) → holds_value n ≡ true → n ≤ max_key_len
held_fits n h = ground arith

abbrev pub entry_size : Bytes → List Bytes → Key → ℕ
entry_size realm components key = entry_length (length realm) components (key_length key) - 4

-- What the reader's key holds behind the entry; `old` is what it held before.
abbrev pub entry_key : Key → Key → Key
entry_key key old = record key { value = copy_value (key_length key) key.value old.value }

module _ (realm : Bytes) (components : List Bytes) (key : Key)
    (h : IsExportable realm components key) where
  read_realm_lem :
      (old : Key) (p : ℕ) (s : Bytes)
      → read_realm old (at p (be16 (length realm) (realm ++ s)))
        ≡ ok (record old { realm = some realm }, at (p + 2 + length realm) s)
  unfolding read_realm string_of
  read_realm_lem old p s =
      then_ok next16 _ (next16-be16 (length realm) p (realm ++ s) h.realm_string.1) (
        then_ok (peek (string_of (length realm))) _
          (peek_ok (string_of (length realm)) (at (p + 2) (realm ++ s)) string_read)
          (then_ok (skip (length realm)) _ (skip-append realm (p + 2) s) refl))
    where
      string_read : string_of (length realm) (realm ++ s) ≡ ok realm
      string_read = rw (string_at-append realm [] s h.realm_string.0, string_of)

  read_principal_lem :
      (old : Key) (p : ℕ) (s : Bytes)
      → read_principal (length components) old (at p (write_components components s))
        ≡ ok (
          record old { principal = some (join components) },
          at (p + components_length components) s,
        )
  unfolding read_principal
  read_principal_lem old p s =
      then_ok (read_components (length components) []) _
        (read_components_lem components p [] s h.components_fit.0)
        (then_ok (peek (λ _. principal_of (slashed components))) _
          (peek_ok (λ _. principal_of (slashed components))
            (at (p + components_length components) s)
            (joined components h.some_component h.components_fit.0))
          refl)
    where
      joined :
          (cs : List Bytes)
          → cs ≢ []
          → All IsComponent cs
          → principal_of (slashed cs) ≡ ok (join cs)
      joined [] ne fit = absurd (ne refl)
      joined (c ∷ cs) ne fit = principal_of-slashed c cs fit

  read_times_lem :
      (old : Key) (p v8 : ℕ) (s : Bytes)
      → read_times old (at p (be32 nt_principal (be32 key.timestamp (v8 ∷ s))))
        ≡ ok (record old { timestamp = key.timestamp; kvno = v8 }, at (p + 9) s)
  unfolding read_times
  read_times_lem old p v8 s = then_ok next32 _ (next32-be32 nt_principal p _ (omega arith)) (
      then_ok next_masked32 _ (next_masked32-be32 key.timestamp (p + 4) _ h.times_fit.0) (
        then_ok next _ (next_byte v8 (p + 4 + 4) s) (
          ap (λ q. ok (record old { timestamp = key.timestamp; kvno = v8 }, at q s))
            (omega arith))))

  read_value_lem :
      (old : Key) (p : ℕ) (s : Bytes)
      → read_value old
          (at p (be16 key.type (be16 (key_length key) (take (key_length key) key.value ++ s))))
        ≡ ok (
          record old { type = key.type; value = copy_value (key_length key) key.value old.value },
          at (p + 4 + key_length key) s,
        )
  unfolding read_value key_value_set
  read_value_lem old p s =
      let fits : key_length key ≤ max_key_len = held_fits (key_length key) h.value_held in
      then_ok next_int16 _
        (next_int16-be16 key.type p _ (let t = h.type_fits in omega arith)
          (let t = h.type_fits in omega arith))
        (then_ok next16 _ (next16-be16 (key_length key) (p + 2) _ (omega arith, inl (omega arith)))
          (then_ok (peek (key_value_set (key_type_set old key.type))) _
            (peek_ok (key_value_set (key_type_set old key.type)) (at (p + 2 + 2) (value ++ s))
              (value_copied (value_length fits)))
            (then_ok (skip (key_length key)) _ {t = at (p + 4 + key_length key) s}
              (skipped (value_length fits)) refl)))
    where
      value : Bytes
      value = take (key_length key) key.value

      value_length : key_length key ≤ max_key_len → length value ≡ key_length key
      value_length fits =
          length-take_of_le (key_length key) key.value (let v = h.value_size in omega arith)

      value_copied :
          length value ≡ key_length key
          → key_value_set (key_type_set old key.type) (value ++ s)
            ≡ ok (record old {
              type = key.type;
              value = copy_value (key_length key) key.value old.value;
            })
      value_copied size =
          rw
            (
              h.value_held,
              le→ltb_false (length (value ++ s)) (key_length key)
                  (omega (arith, length-append value s)),
            )
            (ap
              (λ v.
                ok (record old { type = key.type; value = v ++ drop (key_length key) old.value }))
              (take-append_self (key_length key) value s size))

      skipped :
          length value ≡ key_length key
          → skip (key_length key) (at (p + 2 + 2) (value ++ s))
            ≡ ok (tt, at (p + 4 + key_length key) s)
      skipped size =
          ap (λ n. skip n (at (p + 2 + 2) (value ++ s))) (sym size)
          ∙ skip-append value (p + 2 + 2) s
          ∙ ap (λ q. ok (tt, at q s)) (omega arith)

  read_version_lem :
      (old : Key) (p size : ℕ) (s : Bytes)
      → p < size + 4
      → read_version size old (at p (be32 key.kvno s))
        ≡ ok (record old { kvno = key.kvno }, at (p + 4) s)
  unfolding read_version
  read_version_lem old p size s more =
      rw (lt→ltb p (size + 4) more) (then_ok next32 _ (next32-be32 key.kvno p s h.times_fit.1) refl)

  -- In version 0x0502 the entry that was stored for a key is read back as that key, at its size.
  pub read_entry_lem :
      (old : Key) (s : Bytes)
      → read_entry 0x0502 old (at 0 (entry_bytes realm components key s))
        ≡ ok (
          (entry_size realm components key, entry_key key old),
          at (entry_size realm components key + 4) s,
        )
  unfolding read_entry
  read_entry_lem old s =
      then_ok next32 _ (next32-be32 (entry_size realm components key) 0 _ h.size_plain) (
        then_ok next16 _ (next16-be16 (length components) 4 _ h.components_fit.1) (
          then_ok (read_realm old) _ (read_realm_lem old 6 _) (
            then_ok (read_principal (length components) (record old { realm = some realm })) _
              (read_principal_lem (record old { realm = some realm }) (6 + 2 + length realm) _)
              (then_ok (read_times named) _ (read_times_lem named names_end v8 _) (
                then_ok (read_value timed) _ (read_value_lem timed (names_end + 9) _) (
                  then_ok (read_version (entry_size realm components key % 0x10000) valued) _
                    (read_version_lem valued (names_end + 9 + 4 + key_length key) _ s
                      (let fits = h.size_fits in omega arith))
                    finish))))))
    where
      named : Key
      named = record old { realm = some realm; principal = some (join components) }

      names_end : ℕ
      names_end = 6 + 2 + length realm + components_length components

      v8 : ℕ
      v8 = if ltb key.kvno 256 then key.kvno % 0x100 else 0

      timed : Key
      timed = record named { timestamp = key.timestamp; kvno = v8 }

      valued : Key
      valued = record timed {
        type = key.type;
        value = copy_value (key_length key) key.value old.value;
      }

      value_end : ℕ
      value_end = names_end + 9 + 4 + key_length key

      finish :
          ◌≡◌ {A = Outcome ((ℕ × Key) × Cursor)}
            (ok (
              (entry_size realm components key % 0x10000, record valued { kvno = key.kvno }),
              at (value_end + 4) s,
            ))
            (ok (
              (entry_size realm components key, entry_key key old),
              at (entry_size realm components key + 4) s,
            ))
      finish =
          ap₂ (λ n q. ok ((n, record valued { kvno = key.kvno }), at q s))
            (let fits = h.size_fits in omega arith) (omega arith)
          ∙ ap₂
              (λ r p. ok (
                (
                  entry_size realm components key,
                  record key {
                    realm = r;
                    principal = p;
                    value = copy_value (key_length key) key.value old.value;
                  },
                ),
                at (entry_size realm components key + 4) s,
              ))
              (sym h.realm_is) (sym h.principal_is)
