-- ===== src/Tkts/Preauth/Best.antt =====
-- The encryption type that recover_preauth_info of lib/tkts.c settles on.
use shishi.Base.{
  ℕ, zero, suc, ◌+◌, ◌≤◌, Bool, true, false, ◌||◌, ◌&&◌, List, [], ◌∷◌, Option, none, some,
  get_elem?, ◌==◌, if◌then◌else◌, ◌≡◌, refl, sym, ap, ◌∙◌, arith, Bool-cases, Option-cases, inl,
  inr, length, ◌++◌, length-append, append_assoc,
}
use native.Mathlib.Numerals.{add-one}
use shishi.Hint.{Hint}
use shishi.Tkts.Preauth.{
  reply, Einfo, settled, try_etypes, try_einfos, use_found, recover_preauth_info, closer,
  before_found, continue, read_params,
}

-- The first position from `j` on whose type passes
abbrev first_at : ℕ → (ℕ → Bool) → List ℕ → Option ℕ
first_at j p [] = none
first_at j p (e ∷ es) = if p e then some j else first_at (suc j) p es

-- The first type that passes
unfoldable pub first : (ℕ → Bool) → List ℕ → Option ℕ
first p [] = none
first p (e ∷ es) = if p e then some e else first p es

abbrev same : Option ℕ → ℕ → Bool
same none e = false
same (some etype) e = etype == e

-- A type that one of the entries has
unfoldable pub offered : List Einfo → ℕ → Bool
offered [] e = false
offered (einfo ∷ einfos) e = same einfo.etype e || offered einfos e

abbrev least : Option ℕ → Option ℕ → Option ℕ
least found none = found
least found (some k) = closer found k

-- Positions that are all at least `j`
abbrev From : ℕ → Option ℕ → Type 0
From j none = Unit {0}
From j (some k) = j ≤ k

first_at-From : (j : ℕ) (p : ℕ → Bool) (es : List ℕ) → From j (first_at j p es)
first_at-From j p [] = tt
first_at-From j p (e ∷ es) = elim (Bool-cases (p e)) [
  | inl h ↦ rw h (omega arith)
  | inr h ↦ rw h (weaken (first_at (suc j) p es) (first_at-From (suc j) p es))
]
  where
    weaken : (o : Option ℕ) → From (suc j) o → From j o
    weaken none h = tt
    weaken (some k) h = omega arith

least-closer :
    (found : Option ℕ) (j : ℕ) (o : Option ℕ)
    → From (suc j) o
    → least (closer found j) o ≡ closer found j
least-closer none j none h = refl
least-closer none j (some k) h = ground arith
least-closer (some f) j none h = refl
least-closer (some f) j (some k) h = ground arith

and-false : (b : Bool) → b && false ≡ false
and-false true = refl
and-false false = refl

module _ (isinfo2 : Bool) (einfo : Einfo) (etype : ℕ) (hint : Hint) where
  try_etypes_lem :
      (j : ℕ) (es : List ℕ) (found : Option ℕ)
      → try_etypes false isinfo2 einfo etype j es found hint
        ≡ (none, (least found (first_at j (λ e. etype == e) es), hint))
  unfolding try_etypes
  try_etypes_lem j [] found = refl
  try_etypes_lem j (e ∷ es) found = elim (Bool-cases (etype == e)) [
    | inl h ↦
        rw (h, try_etypes)
          (ap
              (λ b.
                continue
                  (if b then read_params isinfo2 einfo.salt einfo.s2kparams hint else (none, hint))
                  (λ t. (found, t))
                  (λ t. try_etypes false isinfo2 einfo etype (j + 1) es (closer found j) t))
              (and-false (before_found j found))
            ∙ (rw add-one (try_etypes_lem (suc j) es (closer found j))
                ∙ ap (λ o. (none, (o, hint)))
                    (least-closer found j (first_at (suc j) (λ e. etype == e) es)
                      (first_at-From (suc j) (λ e. etype == e) es))))
    | inr h ↦ rw (h, try_etypes) (rw add-one (try_etypes_lem (suc j) es found))
  ]

-- The two ways to choose the least position agree.
least-first_at :
    (j : ℕ) (p q : ℕ → Bool) (es : List ℕ)
    → least (first_at j p es) (first_at j q es) ≡ first_at j (λ e. p e || q e) es
least-first_at j p q [] = refl
least-first_at j p q (e ∷ es) =
    by_tests (p e) (q e) (first_at (suc j) p es) (first_at (suc j) q es)
      (first_at-From (suc j) p es) (first_at-From (suc j) q es) (least-first_at (suc j) p q es)
  where
    by_tests :
        (b c : Bool) (o r : Option ℕ) {u : Option ℕ}
        → From (suc j) o
        → From (suc j) r
        → least o r ≡ u
        → least (if b then some j else o) (if c then some j else r) ≡ (if b || c then some j else u)
    by_tests true true o r h k i = ground arith
    by_tests true false o r h k i = least-closer none j r k
    by_tests false true none r h k i = refl
    by_tests false true (some f) r h k i = ground arith
    by_tests false false o r h k i = i

least_assoc : (a b c : Option ℕ) → least (least a b) c ≡ least a (least b c)
least_assoc a b none = refl
least_assoc none none (some k) = refl
least_assoc none (some j) (some k) = ground arith
least_assoc (some i) none (some k) = refl
least_assoc (some i) (some j) (some k) = ground arith

first_at-nowhere : (j : ℕ) (es : List ℕ) → first_at j (λ e. false) es ≡ none
first_at-nowhere j [] = refl
first_at-nowhere j (e ∷ es) = first_at-nowhere (suc j) es

try_einfos_lem :
    (isinfo2 : Bool) (etypes : List ℕ) (einfos : List Einfo) (found : Option ℕ) (hint : Hint)
    → try_einfos false isinfo2 etypes einfos found hint
      ≡ (none, (least found (first_at 0 (offered einfos) etypes), hint))
unfolding try_einfos offered
try_einfos_lem isinfo2 etypes [] found hint =
    ap (λ o. (none, (least found o, hint))) (sym (first_at-nowhere 0 etypes))
try_einfos_lem isinfo2 etypes (einfo ∷ einfos) found hint = elim (Option-cases einfo.etype) [
  | inl h ↦ rw (h, try_einfos, offered) (try_einfos_lem isinfo2 etypes einfos found hint)
  | inr (etype, h) ↦
      let here = first_at 0 (λ e. etype == e) etypes in
      rw (h, try_einfos, offered)
        (ap (λ r. continue r (λ t. t) (λ t. try_einfos false isinfo2 etypes einfos (t.0) (t.1)))
            (try_etypes_lem isinfo2 einfo etype hint 0 etypes found)
          ∙ (try_einfos_lem isinfo2 etypes einfos (least found here) hint
              ∙ ap (λ o. (none, (o, hint)))
                  (least_assoc found here (first_at 0 (offered einfos) etypes)
                    ∙ ap (least found)
                        (least-first_at 0 (λ e. etype == e) (offered einfos) etypes))))
]

get_elem?-append :
    (j e : ℕ) (front es : List ℕ) → length front ≡ j → get_elem? (front ++ e ∷ es) j ≡ some e
get_elem?-append zero e [] es h = refl
get_elem?-append (suc j) e [] es h = absurd (omega arith)
get_elem?-append zero e (f ∷ front) es h = absurd (omega arith)
get_elem?-append (suc j) e (f ∷ front) es h = get_elem?-append j e front es (omega arith)

least-none : (o : Option ℕ) → least none o ≡ o
least-none none = refl
least-none (some k) = refl

-- What follows from the first position follows from the first type.
use_found-first_at :
    (j : ℕ) (p : ℕ → Bool) (front es : List ℕ) (hint : Hint) (retry : Bool)
    → length front ≡ j
    → use_found (front ++ es) (none, (first_at j p es, hint)) retry
      ≡ settled hint retry (first p es)
unfolding first use_found
use_found-first_at j p front [] hint retry h = refl
use_found-first_at j p front (e ∷ es) hint retry h = elim (Bool-cases (p e)) [
  | inl q ↦ rw (q, first) (ap (settled hint retry) (get_elem?-append j e front es h))
  | inr q ↦
      rw (q, first)
        (ap (λ l. use_found l (none, (first_at (suc j) p es, hint)) retry)
            (sym (append_assoc front (e ∷ []) es))
          ∙ use_found-first_at (suc j) p (front ++ e ∷ []) es hint retry
              (omega (arith, length-append front (e ∷ []))))
]

-- Without verbose output, and where the hint holds no type yet, `recover_preauth_info` sets the type
-- to the first of the client's types, in the client's order, that an entry of the server offers, and
-- asks for a retry; where none is offered it changes nothing.
pub recover_preauth_info_lem :
    (isinfo2 : Bool) (etypes : List ℕ) (einfos : List Einfo) (hint : Hint) (retry : Bool)
    → hint.preauthetype ≡ 0
    → recover_preauth_info false isinfo2 etypes (reply einfos) hint retry
      ≡ settled hint retry (first (offered einfos) etypes)
unfolding recover_preauth_info
recover_preauth_info_lem isinfo2 etypes einfos hint retry h =
    let unset : (hint.preauthetype == 0) ≡ true = ground arith in
    let rest = λ (b : Bool).
      if b
      then use_found etypes (try_einfos false isinfo2 etypes einfos none hint) retry
      else (none, (hint, retry)) in
    ap rest unset
    ∙ (ap (λ r. use_found etypes r retry) (try_einfos_lem isinfo2 etypes einfos none hint)
        ∙ (ap (λ o. use_found etypes (none, (o, hint)) retry)
              (least-none (first_at 0 (offered einfos) etypes))
            ∙ use_found-first_at 0 (offered einfos) [] etypes hint retry refl))
