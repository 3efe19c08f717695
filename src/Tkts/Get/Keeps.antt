-- ===== src/Tkts/Get/Keeps.antt =====
-- What shishi_tkts_get of lib/tkts.c does to the set of tickets, and when it asks no server.
use shishi.Base.{
  ℕ, zero, suc, ◌+◌, ◌≤◌, Bool, true, false, List, [], ◌∷◌, ◌++◌, Option, none, some, length, drop,
  append-nil, append_assoc, length-append, if◌then◌else◌, ◌≡◌, refl, sym, ap, ◌∙◌, ◌⊎◌, inl, inr,
  arith, Bool-cases, Option-cases,
}
use mathlib.Core.Path.{subst}
use shishi.Tkt.{Tkt, has_bit}
use shishi.Hint.{Hint, match_p, set_tgtflags_based_on_hint, tgt_tktflags}
use shishi.Tkts.{find_from, tkts_find, tkts_add}
use shishi.Tkts.Find.{matching, Ends, find_from-Ends, matching_next}
use shishi.Tkts.Get.{
  KdcCalls, Settings, as_loop, tkts_with, add_gotten, add_once_gotten, non_interactive, tgt_hint,
  processed, tgs_exchange, tkts_get_tgt, tkts_get_tgs, use_tgt, tkts_get,
}

-- A ticket of the set
abbrev pub IsIn : Tkt → List Tkt → Type 0
IsIn u [] = ⊥
IsIn u (t ∷ ts) = (t ≡ u) ⊎ IsIn u ts

IsIn-append : (u : Tkt) (ts us : List Tkt) → IsIn u ts → IsIn u (ts ++ us)
IsIn-append u [] us h = absurd h
IsIn-append u (t ∷ ts) us (inl h) = inl h
IsIn-append u (t ∷ ts) us (inr h) = inr (IsIn-append u ts us h)

IsIn-last : (u : Tkt) (ts : List Tkt) → IsIn u (ts ++ u ∷ [])
IsIn-last u [] = inl refl
IsIn-last u (t ∷ ts) = inr (IsIn-last u ts)

abbrev pub IsGiven : Option Tkt → List Tkt → Type 0
IsGiven none tkts = Unit
IsGiven (some u) tkts = IsIn u tkts

-- A set that was made of `tkts`: the earlier tickets are left, and at most `n` are added behind them.
-- A ticket that is given is in it.
abbrev pub IsGotten : ℕ → List Tkt → Option Tkt → List Tkt → Type 0
IsGotten n tkts t tkts' =
    (new : List Tkt) × (tkts' ≡ tkts ++ new) × (length new ≤ n) × IsGiven t tkts'

unchanged : (n : ℕ) (tkts : List Tkt) (t : Option Tkt) → IsGiven t tkts → IsGotten n tkts t tkts
unchanged n tkts t g = ([], sym (append-nil tkts), omega arith, g)

-- Two steps behind each other
IsGotten-trans :
    (m n : ℕ) (tkts us vs : List Tkt) (t u : Option Tkt)
    → IsGotten m tkts t us
    → IsGotten n us u vs
    → IsGotten (m + n) tkts u vs
IsGotten-trans m n tkts us vs t u (new, e, h, g) (newer, f, k, i) = (
  new ++ newer,
  f ∙ (ap (λ l. l ++ newer) e ∙ append_assoc tkts new newer),
  omega (arith, length-append new newer),
  i,
)

find_from-IsGiven :
    (now i : ℕ) (hint : Hint) (tkts : List Tkt) → IsGiven (find_from now tkts i hint).0 tkts
unfolding find_from
find_from-IsGiven now i hint [] = tt
find_from-IsGiven now i hint (t ∷ ts) = elim (Bool-cases (match_p now t hint)) [
  | inl e ↦ rw (e, find_from) (inl refl)
  | inr e ↦
      rw (e, find_from)
        (later (find_from now ts (i + 1) hint).0 (find_from-IsGiven now (i + 1) hint ts))
]
  where
    later : (o : Option Tkt) → IsGiven o ts → IsGiven o (t ∷ ts)
    later none h = tt
    later (some u) h = inr h

IsGiven-drop : (n : ℕ) (tkts : List Tkt) (o : Option Tkt) → IsGiven o (drop n tkts) → IsGiven o tkts
IsGiven-drop n tkts none h = tt
IsGiven-drop zero tkts (some u) h = h
IsGiven-drop (suc n) [] (some u) h = h
IsGiven-drop (suc n) (t ∷ ts) (some u) h = inr (IsGiven-drop n ts (some u) h)

tkts_find-IsGiven :
    (now : ℕ) (tkts : List Tkt) (hint : Hint) → IsGiven (tkts_find now (some tkts) hint).0 tkts
unfolding tkts_find
tkts_find-IsGiven now tkts hint =
    IsGiven-drop hint.startpos tkts _
      (find_from-IsGiven now hint.startpos hint (drop hint.startpos tkts))

module _ {S : Type 0} (x : KdcCalls S) where
  add_gotten-IsGotten :
      (tkts : List Tkt) (r : Option Tkt × S)
      → IsGotten 1 tkts (add_gotten x tkts r).0 (add_gotten x tkts r).1.0
  unfolding add_gotten tkts_with tkts_add
  add_gotten-IsGotten tkts (none, s) = unchanged 1 tkts none tt
  add_gotten-IsGotten tkts (some t, s) = (t ∷ [], refl, omega arith, IsIn-last t tkts)

  -- The same of a result, where there is one
  abbrev Gets : ℕ → List Tkt → Option (Option Tkt × (List Tkt × S)) → Type 0
  Gets n tkts none = Unit
  Gets n tkts (some (t, (us, s))) = IsGotten n tkts t us

  add_once_gotten-Gets :
      (tkts : List Tkt) (o : Option (Option Tkt × S)) → Gets 1 tkts (add_once_gotten x tkts o)
  unfolding add_once_gotten
  add_once_gotten-Gets tkts none = tt
  add_once_gotten-Gets tkts (some r) = add_gotten-IsGotten tkts r

  weaken :
      (n : ℕ) (tkts us : List Tkt) (t : Option Tkt)
      → IsGotten n tkts t us
      → IsGotten (n + 1) tkts t us
  weaken n tkts us t (new, e, h, g) = (new, e, omega arith, g)

  module _ (settings : Settings) where
    tkts_get_tgt-Gets :
        (fuel : ℕ) (tkts : List Tkt) (hint : Hint) (s : S)
        → Gets 1 tkts (tkts_get_tgt x settings fuel tkts hint s)
    unfolding tkts_get_tgt
    tkts_get_tgt-Gets fuel tkts hint s =
        let r = tkts_find settings.now (some tkts) (tgt_hint settings hint) in
        elim (Option-cases (r.0)) [
          | inl e ↦
              rw (e, tkts_get_tgt)
                (by_test (record (r.1) { server = none }) (has_bit non_interactive hint.flags))
          | inr (tgt, e) ↦
              rw (e, tkts_get_tgt)
                (unchanged 1 tkts (some tgt)
                  (rw e at (tkts_find-IsGiven settings.now tkts (tgt_hint settings hint))))
        ]
      where
        by_test :
            (lochint : Hint) (b : Bool)
            → Gets 1 tkts (
                if b
                then some (none, (tkts, s))
                else add_once_gotten x tkts (as_loop x settings fuel lochint s))
        by_test lochint true = unchanged 1 tkts none tt
        by_test lochint false = add_once_gotten-Gets tkts (as_loop x settings fuel lochint s)

    use_tgt-Gets :
        (tkts : List Tkt) (hint : Hint) (o : Option (Option Tkt × (List Tkt × S)))
        → Gets 1 tkts o
        → Gets 2 tkts (use_tgt x settings hint o)
    unfolding use_tgt
    use_tgt-Gets tkts hint none g = tt
    use_tgt-Gets tkts hint (some (none, (us, s))) g = weaken 1 tkts us none g
    use_tgt-Gets tkts hint (some (some tgt, (us, s))) g = by_test (match_p settings.now tgt hint)
      where
        by_test :
            (b : Bool)
            → Gets 2 tkts (
                if b
                then some (some tgt, (us, s))
                else some (tkts_get_tgs x settings us hint tgt s))
        by_test true = weaken 1 tkts us (some tgt) g
        by_test false = IsGotten-trans 1 1 tkts us _ (some tgt) _ g (
            unfold tkts_get_tgs in
            add_gotten-IsGotten us (processed x (tgs_exchange x settings hint tgt s)))

    tkts_get-Gets :
        (fuel : ℕ) (tkts : List Tkt) (hint : Hint) (s : S)
        → Gets 2 tkts (tkts_get x settings fuel tkts hint s)
    unfolding tkts_get
    tkts_get-Gets fuel tkts hint s =
        let r = tkts_find settings.now (some tkts) (record hint { startpos = 0 }) in
        elim (Option-cases (r.0)) [
          | inl e ↦
              rw (e, tkts_get)
                (use_tgt-Gets tkts (r.1) (tkts_get_tgt x settings fuel tkts (r.1) s)
                  (tkts_get_tgt-Gets fuel tkts (r.1) s))
          | inr (tkt, e) ↦
              rw (e, tkts_get)
                (unchanged 2 tkts (some tkt)
                  (rw e at (tkts_find-IsGiven settings.now tkts (record hint { startpos = 0 }))))
        ]

    -- `shishi_tkts_get` leaves the tickets of the set in their places and adds at most two behind
    -- them; the ticket that it gives is in the set.
    pub tkts_get-IsGotten :
        (fuel : ℕ) (tkts : List Tkt) (hint : Hint) (s : S) (r : Option Tkt × (List Tkt × S))
        → tkts_get x settings fuel tkts hint s ≡ some r
        → IsGotten 2 tkts r.0 r.1.0
    tkts_get-IsGotten fuel tkts hint s r e = subst (Gets 2 tkts) e (tkts_get-Gets fuel tkts hint s)

    -- What is found first is what matches first.
    find_first :
        (tkts : List Tkt) (hint : Hint) (i : ℕ) (t : Tkt) (ts : List Tkt)
        → matching settings.now hint tkts ≡ t ∷ ts
        → (find_from settings.now tkts i hint).0 ≡ some t
    unfolding Ends
    find_first tkts hint i t ts e = elim (find_from-Ends settings.now hint tkts i) [
      | inl (p, q) ↦ cc
      | inr (u, j, p, q, r) ↦ rw p (cc)
    ]

    find_nothing :
        (tkts : List Tkt) (hint : Hint) (i : ℕ)
        → matching settings.now hint tkts ≡ []
        → (find_from settings.now tkts i hint).0 ≡ none
    unfolding Ends
    find_nothing tkts hint i e = elim (find_from-Ends settings.now hint tkts i) [
      | inl (p, q) ↦ rw p refl
      | inr (u, j, p, q, r) ↦ cc
    ]

    -- Where tickets of the set match the hint, `shishi_tkts_get` gives the first of them, and no
    -- server is asked: the set and the state stay.
    pub tkts_get_found :
        (fuel : ℕ) (tkts : List Tkt) (hint : Hint) (s : S) (t : Tkt) (ts : List Tkt)
        → matching settings.now hint tkts ≡ t ∷ ts
        → tkts_get x settings fuel tkts hint s ≡ some (some t, (tkts, s))
    unfolding tkts_get tkts_find
    tkts_get_found fuel tkts hint s t ts e =
        let start = record hint { startpos = 0 } in
        rw (tkts_get, find_first tkts start 0 t ts (matching_next settings.now 0 hint tkts ∙ e))

    -- The hint for the ticket granting ticket does not read the position.
    tgt_hint_next :
        (hint : Hint) (k : ℕ)
        → tgt_hint settings (record hint { startpos = k }) ≡ tgt_hint settings hint
    unfolding tgt_hint set_tgtflags_based_on_hint tgt_tktflags
    tgt_hint_next hint k = refl

    tkts_get_tgt-non_interactive :
        (fuel : ℕ) (tkts : List Tkt) (hint : Hint) (s : S)
        → has_bit non_interactive hint.flags ≡ true
        → matching settings.now (tgt_hint settings hint) tkts ≡ []
        → tkts_get_tgt x settings fuel tkts hint s ≡ some (none, (tkts, s))
    unfolding tkts_get_tgt
    tkts_get_tgt-non_interactive fuel tkts hint s f g =
        let tgt = tgt_hint settings hint in
        let none_found : (tkts_find settings.now (some tkts) tgt).0 ≡ none =
          unfold tkts_find in
          find_nothing (drop tgt.startpos tkts) tgt tgt.startpos
            (unfold tgt_hint set_tgtflags_based_on_hint in g) in
        rw (none_found, tkts_get_tgt, f)

    -- Where no ticket matches the hint, nor the hint for its ticket granting ticket, and the hint
    -- asks for no interaction, `shishi_tkts_get` gives NULL, and the set and the state stay.
    pub tkts_get-non_interactive :
        (fuel : ℕ) (tkts : List Tkt) (hint : Hint) (s : S)
        → has_bit non_interactive hint.flags ≡ true
        → matching settings.now hint tkts ≡ []
        → matching settings.now (tgt_hint settings hint) tkts ≡ []
        → tkts_get x settings fuel tkts hint s ≡ some (none, (tkts, s))
    unfolding tkts_get tkts_find tkts_get_tgt use_tgt
    tkts_get-non_interactive fuel tkts hint s f e g =
        let start = record hint { startpos = 0 } in
        let k = (find_from settings.now tkts 0 start).1 in
        rw (tkts_get, find_nothing tkts start 0 (matching_next settings.now 0 hint tkts ∙ e))
          (ap (use_tgt x settings (record hint { startpos = k })) (
            tkts_get_tgt-non_interactive fuel tkts (record hint { startpos = k }) s f
              (ap (λ h. matching settings.now h tkts) (tgt_hint_next hint k) ∙ g)))
