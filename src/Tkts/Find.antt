-- ===== src/Tkts/Find.antt =====
-- What a search finds: shishi_tkts_find of lib/tkts.c.
use shishi.Base.{
  ℕ, zero, suc, ◌+◌, ◌-◌, ◌≤◌, ◌<◌, Bool, true, false, List, [], ◌∷◌, Option, none, some, length,
  drop, ltb, Bool-cases, if◌then◌else◌, ◌≡◌, refl, sym, ap, ◌∙◌, ◌⊎◌, inl, inr, arith, drop-drop,
  length-drop,
}
use shishi.Tkt.{Tkt, has_bit, expired_p, valid_at_time_p, not_before, not_after, start_or_auth}
use shishi.Hint.Match.{and_iff, match_p_iff}
use shishi.Tkts.Expire.{unexpired}
use shishi.Hint.{Hint, accept_expired, match_p}
use shishi.Tkts.{find_from, tkts_find}

-- The tickets that match, in their order.
unfoldable pub matching : ℕ → Hint → List Tkt → List Tkt
matching now hint [] = []
matching now hint (tkt ∷ tkts) =
    if match_p now tkt hint then tkt ∷ matching now hint tkts else matching now hint tkts

abbrev collect : Tkt → Option (List Tkt) → Option (List Tkt)
collect tkt none = none
collect tkt (some found) = some (tkt ∷ found)

-- A caller that searches again with the same hint until it gets NULL.
unfoldable pub find_each : ℕ → ℕ → List Tkt → Hint → Option (List Tkt)
find_each zero now tkts hint = none
find_each (suc fuel) now tkts hint =
    let r = tkts_find now (some tkts) hint in
    elim (r.0) [ none ↦ some [] | some tkt ↦ collect tkt (find_each fuel now tkts (r.1)) ]

-- Where a search ends.
unfoldable pub Ends : ℕ → Hint → List Tkt → ℕ → Type 0
Ends now hint rest i =
    ((find_from now rest i hint ≡ (none, i + length rest)) × (matching now hint rest ≡ []))
    ⊎ ((t : Tkt) × (j : ℕ) × (find_from now rest i hint ≡ (some t, i + suc j))
        × (matching now hint rest ≡ t ∷ matching now hint (drop (suc j) rest))
        × (suc j ≤ length rest))

pub find_from-Ends : (now : ℕ) (hint : Hint) (rest : List Tkt) (i : ℕ) → Ends now hint rest i
unfolding find_from matching Ends
find_from-Ends now hint [] i = inl (ap (λ n. (none, n)) (omega arith), refl)
find_from-Ends now hint (t ∷ ts) i =
    step (match_p now t hint) refl (find_from-Ends now hint ts (i + 1))
  where
    step : (b : Bool) → match_p now t hint ≡ b → Ends now hint ts (i + 1) → Ends now hint (t ∷ ts) i
    step true e _ = inr (t, 0, rw (e, find_from), rw (e, matching), omega arith)
    step false e (inl (p, q)) =
        inl (rw (e, find_from, p) (ap (λ n. (none, n)) (omega arith)), rw (e, matching, q))
    step false e (inr (u, j, p, q, r)) = inr (
      u,
      suc j,
      rw (e, find_from, p) (ap (λ n. (some u, n)) (omega arith)),
      rw (e, matching, q),
      omega arith,
    )

-- The set is searched by `startpos` alone: the rest of the hint stays.
pub matching_next :
    (now k : ℕ) (hint : Hint) (tkts : List Tkt)
    → matching now (record hint { startpos = k }) tkts ≡ matching now hint tkts
unfolding matching match_p
matching_next now k hint [] = refl
matching_next now k hint (t ∷ ts) =
    ap (λ r. if match_p now t hint then t ∷ r else r) (matching_next now k hint ts)

pub tkts_find_at :
    (now : ℕ) (tkts : List Tkt) (hint : Hint) (o : Option Tkt) (k : ℕ)
    → find_from now (drop hint.startpos tkts) hint.startpos hint ≡ (o, k)
    → tkts_find now (some tkts) hint ≡ (o, record hint { startpos = k })
unfolding tkts_find
tkts_find_at now tkts hint o k p = ap (λ r. (r.0, record hint { startpos = r.1 })) p

-- Searching a set again with the hint that the last search left, until NULL comes, gives exactly the
-- tickets from the hint's first position on that match, each once and in their order.
pub find_each_lem :
    (fuel now : ℕ) (tkts : List Tkt) (hint : Hint)
    → length tkts - hint.startpos < fuel
    → find_each fuel now tkts hint ≡ some (matching now hint (drop hint.startpos tkts))
unfolding find_each Ends
find_each_lem zero now tkts hint h = absurd (omega arith)
find_each_lem (suc fuel) now tkts hint h =
    elim (find_from-Ends now hint (drop hint.startpos tkts) hint.startpos) [
      | inl (p, q) ↦
          let found =
            tkts_find_at now tkts hint none (hint.startpos + length (drop hint.startpos tkts)) p in
          rw (found, find_each, q)
      | inr (t, j, p, q, r) ↦
          let k = hint.startpos + suc j in
          let next = record hint { startpos = k } in
          let m = length-drop hint.startpos tkts in
          let found = tkts_find_at now tkts hint (some t) k p in
          let s : find_each fuel now tkts next ≡ some (matching now hint (drop k tkts)) =
            find_each_lem fuel now tkts next (omega (arith, h, m, r))
            ∙ ap some (matching_next now k hint (drop k tkts)) in
          let d = ap (matching now hint) (drop-drop hint.startpos (suc j) tkts) in
          rw (found, find_each, found, s) (ap some (ap (◌∷◌ t) d ∙ sym q))
    ]

valid-unexpired :
    (now : ℕ) (tkt : Tkt) → valid_at_time_p tkt now ≡ true → ¬ (expired_p now tkt ≡ true)
unfolding valid_at_time_p expired_p not_before not_after start_or_auth
valid-unexpired now tkt v e =
    let b = not_after (start_or_auth tkt.startctime tkt.authctime) now in
    go tkt.endctime (((and_iff b (not_before tkt.endctime now)).0 v).1) e
  where
    go :
        (o : Option ℕ)
        → not_before o now ≡ true
        → ¬ ((elim o [ none ↦ true | some endtime ↦ ltb endtime now ]) ≡ true)
    go none p q = cc
    go (some t) p q = absurd (ground arith)

-- A ticket that has expired at a time matches no hint that leaves expired tickets out.
expired-unmatched :
    (now : ℕ) (tkt : Tkt) (hint : Hint)
    → has_bit accept_expired hint.flags ≡ false
    → expired_p now tkt ≡ true
    → match_p now tkt hint ≡ false
expired-unmatched now tkt hint a e = elim (Bool-cases (match_p now tkt hint)) [
  | inl m ↦ absurd (valid-unexpired now tkt (((match_p_iff now tkt hint).0 m).2 a) e)
  | inr m ↦ m
]

-- Expiring the set's tickets first loses no search that leaves expired tickets out: it finds the
-- same tickets.
pub matching-unexpired :
    (now : ℕ) (tkts : List Tkt) (hint : Hint)
    → has_bit accept_expired hint.flags ≡ false
    → matching now hint (unexpired now tkts) ≡ matching now hint tkts
unfolding matching unexpired
matching-unexpired now [] hint a = refl
matching-unexpired now (t ∷ ts) hint a = elim (Bool-cases (expired_p now t)) [
  | inl e ↦
      rw (e, unexpired, matching, expired-unmatched now t hint a e)
        (matching-unexpired now ts hint a)
  | inr e ↦ rw (e, unexpired, matching, matching-unexpired now ts hint a)
]
