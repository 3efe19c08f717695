-- ===== src/Resume/Queue.antt =====
-- The cache of sessions as a queue, from the slot that is written next on: what GnuTLS is promised.
use shishi.Base.{
  ℕ, zero, suc, ◌+◌, ◌≤◌, ◌<◌, false, List, [], ◌∷◌, ◌++◌, none, some, Bytes, length, drop, ltb,
  if◌then◌else◌, ◌≡◌, ◌⊎◌, inl, inr, refl, sym, ap, ◌∙◌, arith, Bool-cases,
}
use shishi.Resume.{
  Entry, Cache, unused, is_id, put_at, fetch_slot, delete_slot, Op, store, fetch, delete, Answer,
  success, failure, datum,
}

-- How many entries have the key
unfoldable pub count : Bytes → List Entry → ℕ
count key [] = 0
count key (slot ∷ slots) = (if is_id key slot then 1 else 0) + count key slots

abbrev pub cleared : Bytes → Entry → Entry
cleared key slot = if is_id key slot then unused else slot

unfoldable pub clear : Bytes → List Entry → List Entry
clear key [] = []
clear key (slot ∷ slots) = cleared key slot ∷ clear key slots

-- The newest entry takes the place of the oldest.
abbrev pub push : Entry → List Entry → List Entry
push entry entries = drop 1 entries ++ entry ∷ []

-- What the calls answer by the entries, the oldest first
unfoldable pub answers : List Op → List Entry → List Answer
unfolding fetch_slot count clear
answers [] entries = []
answers (store key bytes ∷ ops) entries =
    success ∷ answers ops (push record { id = key; session = bytes } entries)
answers (fetch key ∷ ops) entries = datum (fetch_slot key entries) ∷ answers ops entries
answers (delete key ∷ ops) entries =
    (if ltb 0 (count key entries) then success else failure) ∷ answers ops (clear key entries)

-- A key is not empty, and none is stored that the cache still holds.
abbrev pub IsFresh : List Op → List Entry → Type 0
IsFresh [] entries = Unit {0}
IsFresh (store key bytes ∷ ops) entries =
    (0 < length key)
    × (count key entries ≡ 0)
    × IsFresh ops (push record { id = key; session = bytes } entries)
IsFresh (fetch key ∷ ops) entries = (0 < length key) × IsFresh ops entries
IsFresh (delete key ∷ ops) entries = (0 < length key) × IsFresh ops (clear key entries)

-- No key stands in two entries.
abbrev pub IsDistinct : List Entry → Type 0
IsDistinct entries = (key : Bytes) → 0 < length key → count key entries ≤ 1

-- The cache whose next slot holds `y`, and the queue of its entries
abbrev pub ring : List Entry → Entry → List Entry → Cache
ring xs y ys = record { db = xs ++ y ∷ ys; ptr = length xs }

abbrev pub queue : List Entry → Entry → List Entry → List Entry
queue xs y ys = y ∷ ys ++ xs

pub count-append :
    (key : Bytes) (xs ys : List Entry) → count key (xs ++ ys) ≡ count key xs + count key ys
unfolding count
count-append key [] ys = omega arith
count-append key (x ∷ xs) ys = omega (arith, count-append key xs ys)

pub count_swap : (key : Bytes) (xs ys : List Entry) → count key (xs ++ ys) ≡ count key (ys ++ xs)
count_swap key xs ys = omega (arith, count-append key xs ys, count-append key ys xs)

pub fetch_slot-absent :
    (key : Bytes) (xs ys : List Entry)
    → count key xs ≡ 0
    → fetch_slot key (xs ++ ys) ≡ fetch_slot key ys
unfolding count fetch_slot
fetch_slot-absent key [] ys h = refl
fetch_slot-absent key (x ∷ xs) ys h = ground (arith, fetch_slot-absent key xs ys)

pub fetch_slot-last :
    (key : Bytes) (xs ys : List Entry)
    → count key ys ≡ 0
    → fetch_slot key (xs ++ ys) ≡ fetch_slot key xs
unfolding count fetch_slot
fetch_slot-last key [] [] h = refl
fetch_slot-last key [] (y ∷ ys) h = ground (arith, fetch_slot-last key [] ys)
fetch_slot-last key (x ∷ xs) ys h =
    ap (λ o. if is_id key x then some x.session else o) (fetch_slot-last key xs ys h)

pub fetch_slot_swap :
    (key : Bytes) (xs ys : List Entry)
    → count key (xs ++ ys) ≤ 1
    → fetch_slot key (xs ++ ys) ≡ fetch_slot key (ys ++ xs)
fetch_slot_swap key xs ys h =
    elim (one_absent (count key xs) (count key ys) (omega (arith, count-append key xs ys))) [
      | inl e ↦ fetch_slot-absent key xs ys e ∙ sym (fetch_slot-last key ys xs e)
      | inr e ↦ fetch_slot-last key xs ys e ∙ sym (fetch_slot-absent key ys xs e)
    ]
  where
    one_absent : (m n : ℕ) → m + n ≤ 1 → (m ≡ 0) ⊎ (n ≡ 0)
    one_absent zero n h = inl refl
    one_absent (suc m) n h = inr (omega arith)

pub clear-absent : (key : Bytes) (xs : List Entry) → count key xs ≡ 0 → clear key xs ≡ xs
unfolding count clear
clear-absent key [] h = refl
clear-absent key (x ∷ xs) h = ground (arith, clear-absent key xs)

-- With one entry of the key at most, the first one is all of them.
pub delete_slot_lem :
    (key : Bytes) (xs : List Entry)
    → count key xs ≤ 1
    → delete_slot key xs ≡ (if ltb 0 (count key xs) then some (clear key xs) else none)
unfolding count delete_slot clear
delete_slot_lem key [] h = refl
delete_slot_lem key (x ∷ xs) h = elim (Bool-cases (is_id key x)) [
  | inl e ↦ ground (arith, e, clear-absent key xs)
  | inr e ↦ ground (arith, e, delete_slot_lem key xs)
]

pub is_id-unused : (key : Bytes) → 0 < length key → is_id key unused ≡ false
is_id-unused [] h = absurd (omega arith)
is_id-unused (c ∷ key) h = refl

pub count-clear :
    (k key : Bytes) (xs : List Entry) → 0 < length k → count k (clear key xs) ≤ count k xs
unfolding count clear
count-clear k key [] h = omega arith
count-clear k key (x ∷ xs) h = ground (arith, is_id-unused k h, count-clear k key xs h)

pub clear-append :
    (key : Bytes) (xs ys : List Entry) → clear key (xs ++ ys) ≡ clear key xs ++ clear key ys
unfolding clear
clear-append key [] ys = refl
clear-append key (x ∷ xs) ys = ap (◌∷◌ (cleared key x)) (clear-append key xs ys)

pub length-clear : (key : Bytes) (xs : List Entry) → length (clear key xs) ≡ length xs
unfolding clear
length-clear key [] = refl
length-clear key (x ∷ xs) = ap suc (length-clear key xs)

pub put_at-append :
    (e : Entry) (xs : List Entry) (y : Entry) (ys : List Entry)
    → put_at (length xs) e (xs ++ y ∷ ys) ≡ xs ++ e ∷ ys
unfolding put_at
put_at-append e [] y ys = refl
put_at-append e (x ∷ xs) y ys = ap (◌∷◌ x) (put_at-append e xs y ys)
