-- ===== src/Shisa/Core/Keys.antt =====
-- The keys that shisa_keys_find of db/core.c gives of several databases.
use shishi.Base.{List, [], ◌∷◌, ◌++◌, Option, some, Bytes, All, ◌≡◌}
use shishi.Shisa.Key.{ShisaKey}
use shishi.Shisa.KeyFiles.{shisa_ok}
use shishi.Shisa.Core.{Backend, keys_find_from, shisa_keys_find}

module _ {S : Type 0} (realm principal : Bytes) (hint : Option ShisaKey) (s : S) where
  -- A database in which the search succeeds
  abbrev pub IsSearched : Backend S → Type 0
  IsSearched db =
      (keys : List ShisaKey) × (db.keys_find realm principal hint s ≡ some (shisa_ok, keys))

  keys_find_from-last :
      (dbs : List (Backend S)) (last : Backend S) (keys found : List ShisaKey)
      → All IsSearched dbs
      → last.keys_find realm principal hint s ≡ some (shisa_ok, found)
      → keys_find_from (dbs ++ last ∷ []) realm principal hint s keys ≡ some (shisa_ok, found)
  unfolding keys_find_from
  keys_find_from-last [] last keys found h e = rw (e, keys_find_from)
  keys_find_from-last (db ∷ dbs) last keys found ((ks, k), hs) e =
      rw (k, keys_find_from) (keys_find_from-last dbs last ks found hs e)

  -- Where the search succeeds in each of the databases, `shisa_keys_find` gives the keys of the last
  -- one alone, whatever keys the databases in front have.
  pub shisa_keys_find-last :
      (dbs : List (Backend S)) (last : Backend S) (found : List ShisaKey)
      → All IsSearched dbs
      → last.keys_find realm principal hint s ≡ some (shisa_ok, found)
      → shisa_keys_find (dbs ++ last ∷ []) realm principal hint s ≡ some (shisa_ok, found)
  unfolding shisa_keys_find
  shisa_keys_find-last dbs last found h e = keys_find_from-last dbs last [] found h e
