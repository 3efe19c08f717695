-- ===== src/Tkts.antt =====
-- Sets of tickets: struct Shishi_tkts of lib/tkts.c. `ntkts` and the array are one list, `none` is
-- the set NULL. An index is not negative; the code tests it on the other side only.
pub mod Expire
pub mod Find
pub mod Get
pub mod Import
pub mod Preauth
pub mod Request
use shishi.Base.{
  ℕ, zero, suc, ◌+◌, ◌-◌, Bool, true, false, List, [], ◌∷◌, ◌++◌, Option, none, some, length,
  get_elem?, take, drop, ltb, leb, if◌then◌else◌,
}
use shishi.Outcome.{Outcome, ok, failed, invalid_tkts, invalid_ticket}
use shishi.Tkt.{Tkt, expired_p}
use shishi.Hint.{Hint, match_p}

-- `none` is -1
unfoldable pub tkts_size : Option (List Tkt) → Option ℕ
tkts_size none = none
tkts_size (some tkts) = some (length tkts)

unfoldable pub tkts_nth : Option (List Tkt) → ℕ → Option Tkt
tkts_nth none ticketno = none
tkts_nth (some tkts) ticketno = if leb (length tkts) ticketno then none else get_elem? tkts ticketno

-- the array behind `ticketno` is moved down by one
unfoldable pub removed : List Tkt → ℕ → List Tkt
removed tkts ticketno =
    if leb (length tkts) ticketno then tkts else take ticketno tkts ++ drop (ticketno + 1) tkts

unfoldable pub tkts_remove : Option (List Tkt) → ℕ → Outcome (List Tkt)
unfolding removed
tkts_remove none ticketno = failed invalid_tkts
tkts_remove (some tkts) ticketno = ok (removed tkts ticketno)

unfoldable pub tkts_add : List Tkt → Option Tkt → Outcome (List Tkt)
tkts_add tkts none = failed invalid_ticket
tkts_add tkts (some tkt) = ok (tkts ++ tkt ∷ [])

-- The loop of shishi_tkts_expire: `while (i < tkts->ntkts)`, with the tickets that it has removed
-- so far counted in `warn`. `none` is that the fuel ran out.
unfoldable pub expire_loop : ℕ → ℕ → List Tkt → ℕ → ℕ → Option (List Tkt × ℕ)
unfolding removed
expire_loop now zero tkts i warn = none
expire_loop now (suc fuel) tkts i warn = elim (get_elem? tkts i) [
  | none ↦ some (tkts, warn)
  | some tkt ↦ elim (expired_p now tkt) [
    | true ↦ expire_loop now fuel (removed tkts i) i (suc warn)
    | false ↦ expire_loop now fuel tkts (suc i) warn
  ]
]

-- The set and the number of tickets in the warning.
unfoldable pub tkts_expire : ℕ → ℕ → Option (List Tkt) → Option (Outcome (List Tkt × ℕ))
unfolding expire_loop
tkts_expire now fuel none = some (failed invalid_tkts)
tkts_expire now fuel (some tkts) = elim (expire_loop now fuel tkts 0 0) [
  | none ↦ none
  | some r ↦ some (ok r)
]

-- The loop of shishi_tkts_find over the tickets from position `i` on: the ticket that is found,
-- and the hint's next `startpos`.
unfoldable pub find_from : ℕ → List Tkt → ℕ → Hint → Option Tkt × ℕ
find_from now [] i hint = (none, i)
find_from now (tkt ∷ tkts) i hint = elim (match_p now tkt hint) [
  | true ↦ (some tkt, i + 1)
  | false ↦ find_from now tkts (i + 1) hint
]

unfoldable pub tkts_find : ℕ → Option (List Tkt) → Hint → Option Tkt × Hint
unfolding find_from
tkts_find now none hint = (none, hint)
tkts_find now (some tkts) hint =
    let r = find_from now (drop hint.startpos tkts) hint.startpos hint in
    (r.0, record hint { startpos = r.1 })
