-- ===== src/Tests/Sessions.antt =====
-- Three sessions in a cache of two: a run of Resume.
use shishi.Base.{List, [], ◌∷◌, some, none, replicate, ◌≡◌, refl, arith}
use shishi.Resume.{
  Op, store, fetch, delete, success, datum, run, resume_db_init, no_cache, unused, fetch_slot,
}
use shishi.Resume.Queue.{IsFresh, answers, count, clear}
use shishi.Resume.Refines.{run-resume_db_init}

abbrev calls : List Op
calls =
    store (1 ∷ []) (11 ∷ [])
    ∷ store (2 ∷ []) (12 ∷ [])
    ∷ store (3 ∷ []) (13 ∷ [])
    ∷ fetch (1 ∷ [])
    ∷ fetch (3 ∷ [])
    ∷ delete (2 ∷ [])
    ∷ fetch (2 ∷ [])
    ∷ []

calls-IsFresh : IsFresh calls (replicate 2 unused)
unfolding count clear
calls-IsFresh = (
  omega arith,
  refl,
  (
    omega arith,
    refl,
    (omega arith, refl, (omega arith, (omega arith, (omega arith, (omega arith, tt))))),
  ),
)

run-resume_db_init_example :
    run calls (resume_db_init 2 no_cache)
    ≡ some (
        success
        ∷ success
        ∷ success
        ∷ datum none
        ∷ datum (some (13 ∷ []))
        ∷ success
        ∷ datum none
        ∷ [])
unfolding answers count clear fetch_slot
run-resume_db_init_example = run-resume_db_init calls 2 (omega arith) calls-IsFresh
