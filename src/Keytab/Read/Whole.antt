-- ===== src/Keytab/Read/Whole.antt =====
-- From shishi_keys_to_keytab_mem back through shishi_keys_add_keytab_mem, lib/keytab.c.
use mathlib.Core.List.{map}
use shishi.Base.{
  ℕ, zero, suc, ◌+◌, ◌/◌, ◌%◌, ◌^◌, ◌≤◌, ◌<◌, ◌≡◌, ◌≢◌, refl, sym, ◌∙◌, ap, some, List, [], ◌∷◌,
  ◌++◌, append_assoc, append-nil, Bytes, All, length, length-append, length-drop, drop-drop, drop,
  arith, le→ltb_false,
}
use shishi.Outcome.{Outcome, ok}
use shishi.Wire.{char32_eq, char16}
use shishi.Key.{Key, new_key, key_copy}
use shishi.Keys.{keys_add}
use shishi.Keytab.{Cursor}
use shishi.Keytab.Read.{
  read_entry, read_entries, check_entries, keys_add_keytab_mem, add_size, add_checked,
}
use shishi.Keytab.Read.Hang.{check_round}
use shishi.Keytab.Read.Scans.{at}
use shishi.Keytab.Read.Entry.{IsExportable, entry_key, entry_size, read_entry_lem}
use shishi.Keytab.Read.File.{
  entry_bytes-append, length-entry_bytes, key_to_keytab_entry_lem, drop-entry_bytes,
  key_copy-entry_key,
}
use shishi.Keytab.Write.{entry_bytes, write_keys, keys_to_keytab_mem}

-- Each key with the realm and the components that make it exportable.
abbrev pub AreExportable : List Key → Type 0
AreExportable keys =
    All (λ key. (realm : Bytes) × (components : List Bytes) × IsExportable realm components key)
      keys

-- The entries of a file, one after the other.
abbrev pub file_bytes : (keys : List Key) → AreExportable keys → Bytes
file_bytes [] h = []
file_bytes (key ∷ keys) ((realm, components, e), h) =
    entry_bytes realm components key (file_bytes keys h)

write_keys_lem :
    (keys : List Key) (out : Bytes) (h : AreExportable keys)
    → write_keys keys out ≡ ok (out ++ file_bytes keys h)
unfolding write_keys
write_keys_lem [] out h = ap ok (sym (append-nil out))
write_keys_lem (key ∷ keys) out ((realm, components, e), h) =
    rw (key_to_keytab_entry_lem realm components key e, write_keys)
      (write_keys_lem keys (out ++ entry_bytes realm components key []) h
        ∙ ap ok (
            append_assoc out _ (file_bytes keys h)
            ∙ ap (◌++◌ out) (entry_bytes-append realm components key e (file_bytes keys h))))

-- What stands behind the entry at `start`.
next_start :
    (s : Bytes) (start : ℕ) (key : Key) (realm : Bytes) (components : List Bytes) (rest : Bytes)
    → IsExportable realm components key
    → drop start s ≡ entry_bytes realm components key rest
    → (drop (start + (entry_size realm components key + 4)) s ≡ rest)
      × (start + (entry_size realm components key + 4) ≤ length s)
next_start s start key realm components rest h e = (
  drop-drop start _ s
      ∙ ap (drop (entry_size realm components key + 4)) e
      ∙ drop-entry_bytes realm components key h rest,
  omega (
    arith,
    length-drop start s,
    ap (length {0}) (e ∙ sym (entry_bytes-append realm components key h rest)),
    length-append (entry_bytes realm components key []) rest,
    length-entry_bytes realm components key h,
  ),
)

at_end : (s : Bytes) (start : ℕ) → start ≤ length s → drop start s ≡ [] → start ≡ length s
at_end s start h e = omega (arith, length-drop start s, ap (length {0}) e)

before_end : (s t : Bytes) (b start : ℕ) → drop start s ≡ b ∷ t → start < length s
before_end s t b start e = omega (arith, length-drop start s, ap (length {0}) e)

add_size_lem :
    (start size n : ℕ)
    → start + (size + 4) ≤ n
    → n < 2 ^ 63
    → size < 0x8000
    → add_size (start + 4) size ≡ start + (size + 4)
add_size_lem start size n h small fits = ground arith

check_entries_lem :
    (keys : List Key) (fuel start : ℕ) (s : Bytes) (h : AreExportable keys)
    → length keys < fuel
    → length s < 2 ^ 63
    → start ≤ length s
    → drop start s ≡ file_bytes keys h
    → check_entries fuel s start ≡ some (ok tt)
unfolding check_entries
check_entries_lem keys zero start s h enough small inside e = absurd (omega arith)
check_entries_lem [] (suc fuel) start s h enough small inside e =
    ground (arith, at_end s start inside e)
check_entries_lem (key ∷ keys) (suc fuel) start s ((realm, components, x), h) enough small inside
      e =
    let size : ℕ = entry_size realm components key in
    let (next_is, next_in) = next_start s start key realm components (file_bytes keys h) x e in
    check_round fuel start (size / 0x1000000 % 0x100) (size / 0x10000 % 0x100)
      (size / 0x100 % 0x100) (size % 0x100) s _ (before_end s _ _ start e) e
    ∙ rw
        (
          char32_eq size x.size_plain,
          add_size_lem start size (length s) next_in small (let f = x.size_fits in omega arith),
          le→ltb_false (length s) (start + (size + 4)) next_in,
        )
        (check_entries_lem keys fuel (start + (size + 4)) s h (omega arith) small next_in next_is)

read_round :
    (fuel version start size : ℕ) (s : Bytes) (old entry : Key) (set : List Key) (c : Cursor)
    → start < length s
    → read_entry version old (at 0 (drop start s)) ≡ ok ((size, entry), c)
    → read_entries (suc fuel) version s start old set
      ≡ read_entries fuel version s
          (start + (size + 4))
          entry
          (set ++ (key_copy new_key entry ∷ []))
unfolding read_entries keys_add
read_round fuel version start size s old entry set c h e = ground arith

read_entries_lem :
    (keys : List Key) (fuel start : ℕ) (s : Bytes) (old : Key) (set : List Key)
    (h : AreExportable keys)
    → length keys < fuel
    → start ≤ length s
    → drop start s ≡ file_bytes keys h
    → read_entries fuel 0x0502 s start old set ≡ some (ok (set ++ map (key_copy new_key) keys))
unfolding read_entries keys_add
read_entries_lem keys zero start s old set h enough inside e = absurd (omega arith)
read_entries_lem [] (suc fuel) start s old set h enough inside e =
    ground (arith, at_end s start inside e, append-nil set)
read_entries_lem (key ∷ keys) (suc fuel) start s old set ((realm, components, x), h) enough inside
      e =
    let size : ℕ = entry_size realm components key in
    let (next_is, next_in) = next_start s start key realm components (file_bytes keys h) x e in
    read_round fuel 0x0502 start size s old (entry_key key old) set _ (before_end s _ _ start e) (
      ap (λ b. read_entry 0x0502 old (at 0 b)) e
      ∙ read_entry_lem realm components key x old (file_bytes keys h))
    ∙ ap
        (λ k. read_entries fuel 0x0502 s (start + (size + 4)) (entry_key key old) (set ++ (k ∷ [])))
        (key_copy-entry_key realm components key x old)
    ∙ read_entries_lem keys fuel (start + (size + 4)) s (entry_key key old) _ h (omega arith)
        next_in next_is
    ∙ ap (λ l. some (ok l))
        (append_assoc set (key_copy new_key key ∷ []) (map (key_copy new_key) keys))

-- The keys of a set that is not empty, each of them exportable, are stored by
-- `shishi_keys_to_keytab_mem`; with enough fuel `shishi_keys_add_keytab_mem` adds to a set exactly
-- their copies, in order, whatever `rc` was before.
pub keys_add_keytab_mem-keys_to_keytab_mem :
    (keys set : List Key) (unset : Outcome Bytes) (file : Bytes) (fuel : ℕ)
    → AreExportable keys
    → keys ≢ []
    → keys_to_keytab_mem unset keys ≡ ok file
    → length file < 2 ^ 63
    → length keys < fuel
    → keys_add_keytab_mem fuel file set ≡ some (ok (set ++ map (key_copy new_key) keys))
unfolding keys_to_keytab_mem keys_add_keytab_mem char16
keys_add_keytab_mem-keys_to_keytab_mem [] set unset file fuel h ne e small enough = absurd (ne refl)
keys_add_keytab_mem-keys_to_keytab_mem (key ∷ keys) set unset file fuel h ne e small enough =
    let whole : Bytes = 0x05 ∷ 0x02 ∷ file_bytes (key ∷ keys) h in
    let stored : file ≡ whole = ground (arith, write_keys_lem (key ∷ keys) (0x05 ∷ 0x02 ∷ []) h) in
    let checked : check_entries fuel whole 2 ≡ some (ok tt) =
      check_entries_lem (key ∷ keys) fuel 2 whole h enough (rw stored at small) (omega arith)
        refl in
    rw (stored, keys_add_keytab_mem)
      (ap (add_checked fuel 0x0502 whole set) checked
        ∙ read_entries_lem (key ∷ keys) fuel 2 whole new_key set h enough (omega arith) refl)
