-- ===== src/Resume/Refines.antt =====
-- The cache answers as the queue of its entries does.
use shishi.Base.{
  ℕ, zero, suc, ◌+◌, ◌≤◌, ◌<◌, ◌%◌, Bool, true, false, List, [], ◌∷◌, ◌++◌, Option, none, some,
  Bytes, length, replicate, drop, ltb, ◌==◌, if◌then◌else◌, str_equal, eq_of_str_equal, ◌≡◌, inl,
  inr, refl, sym, ap, ap₂, ◌∙◌, arith, Bool-cases, length-append, length-replicate, append_assoc,
  append-nil,
}
use mathlib.Core.Path.{subst}
use native.Mathlib.Nat.{mod_self, mod-eq_of_lt}
use shishi.Resume.{
  Entry, Cache, stored, not_stored, beyond_cache, unused, put_at, resume_db_store, fetch_slot,
  resume_db_fetch, resume_db_delete, Op, store, fetch, delete, Answer, success, failure, datum,
  answered_before, after_store, after_delete, run, no_cache, resume_db_init,
}
use shishi.Resume.Queue.{
  count, cleared, clear, push, answers, IsFresh, IsDistinct, ring, queue, count-append, count_swap,
  fetch_slot_swap, clear-absent, delete_slot_lem, is_id-unused, count-clear, clear-append,
  length-clear, put_at-append,
}

-- A queue in the slots of a cache
data IsHeld : Cache → List Entry → Type 0 where
  held : (xs : List Entry) (y : Entry) (ys : List Entry) → IsHeld (ring xs y ys) (queue xs y ys)

module _ (key bytes : Bytes) where
  entry : Entry
  entry = record { id = key; session = bytes }

  resume_db_store-ring :
      (xs : List Entry) (y : Entry) (ys : List Entry) (next : ℕ)
      → (length xs + 1) % (length xs + suc (length ys)) ≡ next
      → resume_db_store key bytes (ring xs y ys)
        ≡ stored record { db = xs ++ entry ∷ ys; ptr = next }
  unfolding resume_db_store entry
  resume_db_store-ring xs y ys next e =
      by_size (length (xs ++ y ∷ ys)) (put_at (length xs) entry (xs ++ y ∷ ys))
        (length-append xs (y ∷ ys)) (put_at-append entry xs y ys)
    where
      by_size :
          (n : ℕ) (slots : List Entry)
          → n ≡ length xs + suc (length ys)
          → slots ≡ xs ++ entry ∷ ys
          → (if n == 0
              then not_stored
              else if ltb (length xs) n
              then stored record { db = slots; ptr = (length xs + 1) % n }
              else beyond_cache)
            ≡ stored record { db = xs ++ entry ∷ ys; ptr = next }
      by_size n slots h q = ground (arith, h, q, e)

  -- The oldest entry gives way.
  resume_db_store-IsHeld :
      {cache : Cache} {entries : List Entry}
      → IsHeld cache entries
      → (cache' : Cache) × (resume_db_store key bytes cache ≡ stored cache')
        × IsHeld cache' (push entry entries)
  unfolding entry
  resume_db_store-IsHeld (held xs y (z ∷ zs)) = (
    ring (xs ++ entry ∷ []) z zs,
    resume_db_store-ring xs y (z ∷ zs) (length (xs ++ entry ∷ []))
          (mod-eq_of_lt (omega arith) ∙ omega (arith, length-append xs (entry ∷ [])))
        ∙ ap (λ db. stored record { db = db; ptr = length (xs ++ entry ∷ []) })
            (sym (append_assoc xs (entry ∷ []) (z ∷ zs))),
    subst (IsHeld (ring (xs ++ entry ∷ []) z zs)) (sym (append_assoc (z ∷ zs) xs (entry ∷ [])))
        (held (xs ++ entry ∷ []) z zs),
  )
  resume_db_store-IsHeld (held [] y []) =
      (ring [] entry [], resume_db_store-ring [] y [] 0 refl, held [] entry [])
  resume_db_store-IsHeld (held (x ∷ xs) y []) = (
    ring [] x (xs ++ entry ∷ []),
    resume_db_store-ring (x ∷ xs) y [] 0 (mod_self (length (x ∷ xs) + 1)),
    subst (λ back. IsHeld (ring [] x (xs ++ entry ∷ [])) (x ∷ back)) (append-nil (xs ++ entry ∷ []))
        (held [] x (xs ++ entry ∷ [])),
  )

resume_db_fetch-IsHeld :
    (key : Bytes) {cache : Cache} {entries : List Entry}
    → IsHeld cache entries
    → count key entries ≤ 1
    → resume_db_fetch key cache ≡ fetch_slot key entries
unfolding resume_db_fetch
resume_db_fetch-IsHeld key (held xs y ys) h = sym (fetch_slot_swap key (y ∷ ys) xs h)

resume_db_delete-IsHeld :
    (key : Bytes) {cache : Cache} {entries : List Entry}
    → IsHeld cache entries
    → count key entries ≤ 1
    → (cache' : Cache) × (resume_db_delete key cache
        ≡ (if ltb 0 (count key entries) then some cache' else none))
      × IsHeld cache' (clear key entries)
unfolding resume_db_delete clear
resume_db_delete-IsHeld key (held xs y ys) h = (
  cleared_ring,
  ap as_cache (delete_slot_lem key (xs ++ y ∷ ys) (subst (λ n. n ≤ 1) swapped h))
      ∙ by_found (ltb 0 (count key (xs ++ y ∷ ys))) _ (ap (ltb 0) (sym swapped)),
  subst (λ back. IsHeld cleared_ring (cleared key y ∷ back)) (sym (clear-append key ys xs))
      (held (clear key xs) (cleared key y) (clear key ys)),
)
  where
    cleared_ring : Cache
    cleared_ring = ring (clear key xs) (cleared key y) (clear key ys)

    swapped : count key (y ∷ ys ++ xs) ≡ count key (xs ++ y ∷ ys)
    swapped = count_swap key (y ∷ ys) xs

    as_cache : Option (List Entry) → Option Cache
    as_cache none = none
    as_cache (some slots) = some record { db = slots; ptr = length xs }

    by_found :
        (b c : Bool)
        → b ≡ c
        → as_cache (if b then some (clear key (xs ++ y ∷ ys)) else none)
          ≡ (if c then some cleared_ring else none)
    by_found true true e =
        ap₂ (λ db ptr. some record { db = db; ptr = ptr }) (clear-append key xs (y ∷ ys))
          (sym (length-clear key xs))
    by_found true false e = cc
    by_found false true e = cc
    by_found false false e = refl

IsDistinct-push :
    (key bytes : Bytes) (entries : List Entry)
    → count key entries ≡ 0
    → IsDistinct entries
    → IsDistinct (push record { id = key; session = bytes } entries)
unfolding count
IsDistinct-push key bytes entries n d k p = elim (Bool-cases (str_equal k key)) [
  | inl e ↦
      let absent : count k entries ≡ 0 = ap (λ t. count t entries) (eq_of_str_equal k key e) ∙ n in
      counted (ground (arith, absent, e, count-drop k entries))
  | inr e ↦ counted (ground (arith, e, d k p, count-drop k entries))
]
  where
    counted :
        count k (drop 1 entries) + (if str_equal k key then 1 else 0) ≤ 1
        → count k (drop 1 entries ++ record { id = key; session = bytes } ∷ []) ≤ 1
    counted h =
        omega
          (arith, h, count-append k (drop 1 entries) (record { id = key; session = bytes } ∷ []))

    count-drop : (k : Bytes) (entries : List Entry) → count k (drop 1 entries) ≤ count k entries
    count-drop k [] = omega arith
    count-drop k (x ∷ entries) = omega arith

-- The calls answer as the queue of the entries does, if no key is empty and none is stored that the
-- cache still holds.
run-answers :
    (ops : List Op) (cache : Cache) (entries : List Entry)
    → IsHeld cache entries
    → IsDistinct entries
    → IsFresh ops entries
    → run ops cache ≡ some (answers ops entries)
unfolding run answers entry
run-answers [] cache entries h d f = refl
run-answers (store key bytes ∷ ops) cache entries h d (p, n, f) =
    let (cache', e, h') = resume_db_store-IsHeld key bytes h in
    ap (after_store (run ops) cache) e
    ∙ ap (answered_before success) (
        run-answers ops cache' (push record { id = key; session = bytes } entries) h'
          (IsDistinct-push key bytes entries n d) f)
run-answers (fetch key ∷ ops) cache entries h d (p, f) =
    ap₂ (λ o r. answered_before (datum o) r) (resume_db_fetch-IsHeld key h (d key p))
      (run-answers ops cache entries h d f)
run-answers (delete key ∷ ops) cache entries h d (p, f) =
    let (cache', e, h') = resume_db_delete-IsHeld key h (d key p) in
    let d' : IsDistinct (clear key entries) =
      λ k p'. omega (arith, count-clear k key entries p', d k p') in
    let deleted : Bool → Option (List Answer) =
      λ b. after_delete (run ops) cache (if b then some cache' else none) in
    let answered : Bool → Option (List Answer) =
      λ b. some ((if b then success else failure) ∷ answers ops (clear key entries)) in
    ap (after_delete (run ops) cache) e ∙ elim (Bool-cases (ltb 0 (count key entries))) [
      | inl q ↦
          ap deleted q
          ∙ ap (answered_before success) (run-answers ops cache' (clear key entries) h' d' f)
          ∙ sym (ap answered q)
      | inr q ↦
          let kept = subst (IsHeld cache) (sym (clear-absent key entries (ground (arith, q)))) h in
          ap deleted q
          ∙ ap (answered_before failure) (run-answers ops cache (clear key entries) kept d' f)
          ∙ sym (ap answered q)
    ]

count-replicate : (key : Bytes) (n : ℕ) → 0 < length key → count key (replicate n unused) ≡ 0
unfolding count
count-replicate key zero h = refl
count-replicate key (suc n) h = ground (arith, is_id-unused key h, count-replicate key n h)

-- Whatever is asked of a cache of n slots that has just been made, where n is not 0, it answers as the
-- queue of the last n entries does, and no slot is written that is not there. The condition: no key
-- is empty, and none is stored that the cache still holds.
pub run-resume_db_init :
    (ops : List Op) (n : ℕ)
    → 0 < n
    → IsFresh ops (replicate n unused)
    → run ops (resume_db_init n no_cache) ≡ some (answers ops (replicate n unused))
unfolding resume_db_init
run-resume_db_init ops zero h f = absurd (omega arith)
run-resume_db_init ops (suc n) h f =
    run-answers ops (ring [] unused (replicate n unused)) (replicate (suc n) unused)
      (subst (λ back. IsHeld (ring [] unused (replicate n unused)) (unused ∷ back))
        (append-nil (replicate n unused)) (held [] unused (replicate n unused)))
      (λ key p. omega (arith, count-replicate key (suc n) p)) f

-- A cache that is made anew with fewer slots, when more of the old one were written, loses the first
-- session: its slot is not there.
pub resume_db_store-resume_db_init :
    (key bytes : Bytes) (n : ℕ) (cache : Cache)
    → 0 < n
    → n ≤ cache.ptr
    → resume_db_store key bytes (resume_db_init n cache) ≡ beyond_cache
unfolding resume_db_store resume_db_init
resume_db_store-resume_db_init key bytes n cache p h = ground (arith, length-replicate n unused)
