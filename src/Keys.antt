-- ===== src/Keys.antt =====
-- Key sets: struct Shishi_keys and its operations, lib/keys.c. `nkeys` and the array are one list.
use shishi.Base.{
  ℕ, ◌+◌, Option, none, some, List, [], ◌∷◌, ◌++◌, length, get_elem?, take, drop, ltb, leb,
  if◌then◌else◌,
}
use shishi.Key.{Key, new_key, key_copy}
use shishi.Outcome.{Outcome, ok, failed, overrun, invalid_key}

unfoldable pub keys_size : List Key → ℕ
keys_size keys = length keys

-- `keyno` is not negative; there is no bounds check on that side.
unfoldable pub keys_nth : List Key → ℕ → Option Key
keys_nth keys keyno = if leb (length keys) keyno then none else get_elem? keys keyno

-- `shishi_key_done (keys->keys[keyno])` comes before the test of `keyno`.
unfoldable pub keys_remove : List Key → ℕ → Outcome (List Key)
keys_remove keys keyno =
    if ltb keyno (length keys) then ok (take keyno keys ++ drop (keyno + 1) keys) else overrun

-- The set holds a copy, made in a new key.
unfoldable pub keys_add : List Key → Option Key → Outcome (List Key)
keys_add keys none = failed invalid_key
keys_add keys (some key) = ok (keys ++ key_copy new_key key ∷ [])
