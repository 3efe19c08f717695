-- ===== src/Tkts/Expire.antt =====
-- Expiring tickets and the set's indices: shishi_tkts_expire and shishi_tkts_remove of lib/tkts.c.
use shishi.Base.{
  ℕ, zero, suc, ◌+◌, ◌<◌, Bool, true, false, List, [], ◌∷◌, ◌++◌, some, length, get_elem?,
  if◌then◌else◌, ◌≡◌, refl, sym, ap, ap₂, ◌∙◌, arith, append_assoc, length-append, lt→leb_false,
  take-append_self, drop-append_self, drop-drop,
}
use shishi.Outcome.{ok}
use shishi.Tkt.{Tkt, expired_p}
use shishi.Tkts.{removed, expire_loop, tkts_expire}

-- The tickets that have not expired, in their order.
unfoldable pub unexpired : ℕ → List Tkt → List Tkt
unexpired now [] = []
unexpired now (tkt ∷ tkts) =
    if expired_p now tkt then unexpired now tkts else tkt ∷ unexpired now tkts

unfoldable pub count_expired : ℕ → List Tkt → ℕ
count_expired now [] = 0
count_expired now (tkt ∷ tkts) =
    if expired_p now tkt then suc (count_expired now tkts) else count_expired now tkts

get_elem?-append : (xs ys : List Tkt) → get_elem? (xs ++ ys) (length xs) ≡ get_elem? ys 0
get_elem?-append [] ys = refl
get_elem?-append (x ∷ xs) ys = get_elem?-append xs ys

removed-append : (xs ys : List Tkt) (y : Tkt) → removed (xs ++ y ∷ ys) (length xs) ≡ xs ++ ys
unfolding removed
removed-append xs ys y = rw (
  lt→leb_false (length (xs ++ y ∷ ys)) (length xs) (omega (arith, length-append xs (y ∷ ys))),
  take-append_self (length xs) xs (y ∷ ys) refl,
  drop-drop (length xs) 1 (xs ++ y ∷ ys),
  drop-append_self (length xs) xs (y ∷ ys) refl,
)

append-shift : (xs ys : List Tkt) (y : Tkt) → (xs ++ y ∷ []) ++ ys ≡ xs ++ y ∷ ys
append-shift xs ys y = append_assoc xs (y ∷ []) ys

-- One turn of the loop, by what the rest of it does.
expire_step :
    (now fuel : ℕ) (kept ts : List Tkt) (t : Tkt) (warn : ℕ) (b : Bool)
    → ((kept' : List Tkt) (warn' : ℕ)
        → expire_loop now fuel (kept' ++ ts) (length kept') warn'
          ≡ some (kept' ++ unexpired now ts, warn' + count_expired now ts))
    → (elim b [
      | true ↦
          expire_loop now fuel (removed (kept ++ t ∷ ts) (length kept)) (length kept) (suc warn)
      | false ↦ expire_loop now fuel (kept ++ t ∷ ts) (suc (length kept)) warn
    ])
      ≡ some (
        kept ++ (if b then unexpired now ts else t ∷ unexpired now ts),
        warn + (if b then suc (count_expired now ts) else count_expired now ts),
      )
expire_step now fuel kept ts t warn true IH =
    ap (λ r. expire_loop now fuel r (length kept) (suc warn)) (removed-append kept ts t)
    ∙ IH kept (suc warn)
    ∙ ap (λ n. some (kept ++ unexpired now ts, n)) (omega arith)
expire_step now fuel kept ts t warn false IH =
    ap₂ (λ r n. expire_loop now fuel r n warn) (sym (append-shift kept ts t))
      (omega (arith, length-append kept (t ∷ [])))
    ∙ IH (kept ++ t ∷ []) warn
    ∙ ap (λ r. some (r, warn + count_expired now ts)) (append-shift kept (unexpired now ts) t)

-- The loop at a position, behind tickets that it has kept.
expire_loop_lem :
    (now fuel : ℕ) (kept tkts : List Tkt) (warn : ℕ)
    → length tkts < fuel
    → expire_loop now fuel (kept ++ tkts) (length kept) warn
      ≡ some (kept ++ unexpired now tkts, warn + count_expired now tkts)
unfolding expire_loop unexpired count_expired
expire_loop_lem now zero kept tkts warn h = absurd (omega arith)
expire_loop_lem now (suc fuel) kept [] warn h =
    let e : warn + 0 ≡ warn = omega arith in rw (get_elem?-append kept [], expire_loop, e)
expire_loop_lem now (suc fuel) kept (t ∷ ts) warn h =
    let s =
      expire_step now fuel kept ts t warn (expired_p now t)
        (λ kept' warn'. expire_loop_lem now fuel kept' ts warn' (omega arith)) in
    rw (get_elem?-append kept (t ∷ ts), expire_loop, s)

-- With more fuel than tickets `shishi_tkts_expire` ends with exactly the tickets that have not
-- expired, in their order, and it has counted exactly those that have, the number that it warns of
-- where that is not 0 and the output is verbose.
pub tkts_expire_lem :
    (now fuel : ℕ) (tkts : List Tkt)
    → length tkts < fuel
    → tkts_expire now fuel (some tkts) ≡ some (ok (unexpired now tkts, count_expired now tkts))
unfolding tkts_expire
tkts_expire_lem now fuel tkts h =
    let e : 0 + count_expired now tkts ≡ count_expired now tkts = omega arith in
    rw (expire_loop_lem now fuel [] tkts 0 h, tkts_expire, e)
