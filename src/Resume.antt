-- ===== src/Resume.antt =====
-- The cache of TLS sessions that the server keeps for resumption: src/resume.c. The three variables are
-- one record: `cache_db_size` is the length of `db`. An allocation gives what is asked of it.
pub mod Queue
pub mod Refines
use shishi.Base.{
  ℕ, zero, suc, ◌+◌, ◌%◌, Bool, true, false, List, [], ◌∷◌, Option, none, some, Bytes, length,
  replicate, ltb, ◌==◌, if◌then◌else◌, str_equal,
}

-- CACHE: the sizes are the lengths.
pub record Entry : Type 0 where
  pub id : Bytes
  pub session : Bytes

pub record Cache : Type 0 where
  pub db : List Entry
  pub ptr : ℕ

-- What resume_db_store comes to: -1, 0 and the cache afterwards, or a slot that is not there
pub data Stored : Type 0 where
  not_stored : Stored
  stored : Cache → Stored
  beyond_cache : Stored

-- calloc's
abbrev pub unused : Entry
unused = record { id = []; session = [] }

-- `key.size == cache_db[i].id_size && memcmp (key.data, cache_db[i].id, key.size) == 0`
abbrev pub is_id : Bytes → Entry → Bool
is_id key entry = str_equal key entry.id

unfoldable pub put_at : ℕ → Entry → List Entry → List Entry
put_at i entry [] = []
put_at zero entry (slot ∷ slots) = entry ∷ slots
put_at (suc i) entry (slot ∷ slots) = slot ∷ put_at i entry slots

unfoldable pub resume_db_store : Bytes → Bytes → Cache → Stored
unfolding put_at
resume_db_store key bytes cache =
    if length cache.db == 0
    then not_stored
    else if ltb cache.ptr (length cache.db)
    then stored record {
      db = put_at cache.ptr record { id = key; session = bytes } cache.db;
      ptr = (cache.ptr + 1) % length cache.db;
    }
    else beyond_cache

-- the loop of resume_db_fetch; none is a datum that is NULL
unfoldable pub fetch_slot : Bytes → List Entry → Option Bytes
fetch_slot key [] = none
fetch_slot key (slot ∷ slots) = if is_id key slot then some slot.session else fetch_slot key slots

unfoldable pub resume_db_fetch : Bytes → Cache → Option Bytes
unfolding fetch_slot
resume_db_fetch key cache = fetch_slot key cache.db

-- the loop of resume_db_delete; none is -1
unfoldable pub delete_slot : Bytes → List Entry → Option (List Entry)
delete_slot key [] = none
delete_slot key (slot ∷ slots) =
    let rest = delete_slot key slots in
    if is_id key slot
    then some (unused ∷ slots)
    else elim rest [ none ↦ none | some slots' ↦ some (slot ∷ slots') ]

unfoldable pub resume_db_delete : Bytes → Cache → Option Cache
unfolding delete_slot
resume_db_delete key cache = elim (delete_slot key cache.db) [
  | none ↦ none
  | some slots ↦ some (record cache { db = slots })
]

-- The slot that is written next stays where it was.
unfoldable pub resume_db_init : ℕ → Cache → Cache
resume_db_init nconnections cache = record cache { db = replicate nconnections unused }

-- The variables before the first resume_db_init
abbrev pub no_cache : Cache
no_cache = record { db = []; ptr = 0 }

-- The calls that GnuTLS makes, and what they answer
pub data Op : Type 0 where
  store : Bytes → Bytes → Op
  fetch : Bytes → Op
  delete : Bytes → Op

pub data Answer : Type 0 where
  success failure : Answer
  datum : Option Bytes → Answer

-- What the calls behind one that has answered come to
abbrev pub answered_before : Answer → Option (List Answer) → Option (List Answer)
answered_before answer none = none
answered_before answer (some answers) = some (answer ∷ answers)

abbrev pub after_store : (Cache → Option (List Answer)) → Cache → Stored → Option (List Answer)
after_store go_on cache not_stored = answered_before failure (go_on cache)
after_store go_on cache (stored cache') = answered_before success (go_on cache')
after_store go_on cache beyond_cache = none

abbrev pub after_delete :
    (Cache → Option (List Answer)) → Cache → Option Cache → Option (List Answer)
after_delete go_on cache none = answered_before failure (go_on cache)
after_delete go_on cache (some cache') = answered_before success (go_on cache')

-- What the calls answer, one after the other; none where one writes a slot that is not there
unfoldable pub run : List Op → Cache → Option (List Answer)
unfolding resume_db_store resume_db_fetch resume_db_delete
run [] cache = some []
run (store key bytes ∷ ops) cache = after_store (run ops) cache (resume_db_store key bytes cache)
run (fetch key ∷ ops) cache = answered_before (datum (resume_db_fetch key cache)) (run ops cache)
run (delete key ∷ ops) cache = after_delete (run ops) cache (resume_db_delete key cache)
