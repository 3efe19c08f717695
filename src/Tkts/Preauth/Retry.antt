-- ===== src/Tkts/Preauth/Retry.antt =====
-- When recover_preauth of lib/tkts.c asks for a retry: only with a type set in the hint, and never where
-- one is set already.
use shishi.Base.{
  ℕ, zero, suc, ◌+◌, Bool, true, false, ◌&&◌, List, [], ◌∷◌, Option, none, some, get_elem?, All,
  ◌==◌, if◌then◌else◌, ◌≡◌, ◌≢◌, refl, ap, ◌∙◌, arith, Bool-cases, Option-cases, inl, inr,
}
use shishi.Outcome.{Rc}
use shishi.Hint.{Hint}
use shishi.Tkts.Preauth.{
  Reply, reply, refuse, with_reply, continue, Element, present, absent, unreadable, Einfo, PaData,
  read_s2kparams, read_s2kparams_if, read_params, try_etypes, try_einfos, settled, use_found,
  before_found, closer, recover_preauth_info, recover_value, recover_each, recover_preauth,
  is_etype_info, is_info2,
}

-- A property that a call's result has, and each continuation keeps
continue-keeps :
    {T U : Type 0} (P : T → Type 0) (Q : U → Type 0) (r : Option Rc × T) (stop : T → U)
    (k : T → Option Rc × U)
    → P r.1
    → ((t : T) → P t → Q (stop t))
    → ((t : T) → P t → Q (k t).1)
    → Q (continue r stop k).1
continue-keeps P Q (some rc, t) stop k p f g = f t p
continue-keeps P Q (none, t) stop k p f g = g t p

pub with_reply-keeps :
    {A T : Type 0} (Q : T → Type 0) (r : Reply A) (k : A → Option Rc × T) (t : T)
    → Q t
    → ((a : A) → Q (k a).1)
    → Q (with_reply r k t).1
with_reply-keeps Q (reply a) k t p g = g a
with_reply-keeps Q (refuse rc) k t p g = p

abbrev pub Has : ℕ → Hint → Type 0
Has e hint = hint.preauthetype ≡ e

read_s2kparams_if-Keeps :
    (isinfo2 : Bool) (s2kparams : Element) (hint : Hint)
    → (read_s2kparams_if isinfo2 s2kparams hint).1.preauthetype ≡ hint.preauthetype
unfolding read_s2kparams_if read_s2kparams
read_s2kparams_if-Keeps true (present bytes) hint = refl
read_s2kparams_if-Keeps true absent hint = refl
read_s2kparams_if-Keeps true (unreadable rc) hint = refl
read_s2kparams_if-Keeps false s2kparams hint = refl

read_params-Keeps :
    (isinfo2 : Bool) (salt s2kparams : Element) (hint : Hint)
    → (read_params isinfo2 salt s2kparams hint).1.preauthetype ≡ hint.preauthetype
unfolding read_params
read_params-Keeps isinfo2 (present bytes) s2kparams hint =
    read_s2kparams_if-Keeps isinfo2 s2kparams (record hint { preauthsalt = some bytes })
read_params-Keeps isinfo2 absent s2kparams hint = read_s2kparams_if-Keeps isinfo2 s2kparams hint
read_params-Keeps isinfo2 (unreadable rc) s2kparams hint = refl

module _ (noise isinfo2 : Bool) (p : ℕ) where
  try_etypes-keeps :
      (einfo : Einfo) (etype j : ℕ) (es : List ℕ) (found : Option ℕ) (hint : Hint)
      → Has p hint
      → Has p (try_etypes noise isinfo2 einfo etype j es found hint).1.1
  unfolding try_etypes
  try_etypes-keeps einfo etype j [] found hint h = h
  try_etypes-keeps einfo etype j (e ∷ es) found hint h = elim (Bool-cases (etype == e)) [
    | inl q ↦
        rw (q, try_etypes)
          (continue-keeps (Has p) (λ r. Has p r.1)
            (if before_found j found && noise
              then read_params isinfo2 einfo.salt einfo.s2kparams hint
              else (none, hint))
            (λ t. (found, t))
            (λ t. try_etypes noise isinfo2 einfo etype (j + 1) es (closer found j) t)
            (if_keeps (before_found j found && noise)) (λ t q. q)
            (λ t q. try_etypes-keeps einfo etype (j + 1) es (closer found j) t q))
    | inr q ↦ rw (q, try_etypes) (try_etypes-keeps einfo etype (j + 1) es found hint h)
  ]
    where
      if_keeps :
          (b : Bool)
          → Has p
              (if b then read_params isinfo2 einfo.salt einfo.s2kparams hint else (none, hint)).1
      if_keeps true = read_params-Keeps isinfo2 einfo.salt einfo.s2kparams hint ∙ h
      if_keeps false = h

  try_einfos-keeps :
      (etypes : List ℕ) (einfos : List Einfo) (found : Option ℕ) (hint : Hint)
      → Has p hint
      → Has p (try_einfos noise isinfo2 etypes einfos found hint).1.1
  unfolding try_einfos
  try_einfos-keeps etypes [] found hint h = h
  try_einfos-keeps etypes (einfo ∷ einfos) found hint h = elim (Option-cases einfo.etype) [
    | inl q ↦ rw (q, try_einfos) (try_einfos-keeps etypes einfos found hint h)
    | inr (etype, q) ↦
        rw (q, try_einfos)
          (continue-keeps (λ r. Has p r.1) (λ r. Has p r.1)
            (try_etypes noise isinfo2 einfo etype 0 etypes found hint) (λ r. r)
            (λ r. try_einfos noise isinfo2 etypes einfos (r.0) (r.1))
            (try_etypes-keeps einfo etype 0 etypes found hint h) (λ r k. k)
            (λ r k. try_einfos-keeps etypes einfos (r.0) (r.1) k))
  ]

-- The type of the hint is set wherever a retry is asked for.
abbrev pub IsSetToRetry : Hint × Bool → Type 0
IsSetToRetry r = r.1 ≡ true → r.0.preauthetype ≢ 0

get_elem?-nonzero :
    (es : List ℕ) (k : ℕ) {e : ℕ} → All (λ e. e ≢ 0) es → get_elem? es k ≡ some e → e ≢ 0
get_elem?-nonzero [] k h q = cc
get_elem?-nonzero (e ∷ es) zero h q = λ z. h.0 (cc)
get_elem?-nonzero (e ∷ es) (suc k) h q = get_elem?-nonzero es k (h.1) q

module _ (noise : Bool) (etypes : List ℕ) (nonzero : All (λ e. e ≢ 0) etypes) where
  settled-IsSetToRetry :
      (hint : Hint) (retry : Bool) (o : Option ℕ)
      → ((e : ℕ) → o ≡ some e → e ≢ 0)
      → IsSetToRetry (hint, retry)
      → IsSetToRetry (settled hint retry o).1
  settled-IsSetToRetry hint retry none h i = i
  settled-IsSetToRetry hint retry (some e) h i = λ q. h e refl

  use_found-IsSetToRetry :
      (r : Option Rc × (Option ℕ × Hint)) (retry : Bool)
      → IsSetToRetry (r.1.1, retry)
      → IsSetToRetry (use_found etypes r retry).1
  unfolding use_found
  use_found-IsSetToRetry (some rc, (found, hint)) retry i = i
  use_found-IsSetToRetry (none, (none, hint)) retry i = i
  use_found-IsSetToRetry (none, (some k, hint)) retry i =
      settled-IsSetToRetry hint retry (get_elem? etypes k)
        (λ e q. get_elem?-nonzero etypes k nonzero q) i

  recover_preauth_info-IsSetToRetry :
      (isinfo2 : Bool) (einfos : Reply (List Einfo)) (hint : Hint) (retry : Bool)
      → IsSetToRetry (hint, retry)
      → IsSetToRetry (recover_preauth_info noise isinfo2 etypes einfos hint retry).1
  unfolding recover_preauth_info
  recover_preauth_info-IsSetToRetry isinfo2 einfos hint retry i = by_test (hint.preauthetype == 0)
    where
      by_test :
          (b : Bool)
          → IsSetToRetry
              (if b
                then with_reply einfos
                    (λ l. use_found etypes (try_einfos noise isinfo2 etypes l none hint) retry)
                    (hint, retry)
                else (none, (hint, retry))).1
      by_test false = i
      by_test true =
          with_reply-keeps IsSetToRetry einfos
            (λ l. use_found etypes (try_einfos noise isinfo2 etypes l none hint) retry)
            (hint, retry) i
            (λ l. use_found-IsSetToRetry (try_einfos noise isinfo2 etypes l none hint) retry (λ q.
              rw (try_einfos-keeps noise isinfo2 hint.preauthetype etypes l none hint refl) (i q)))

  recover_each-IsSetToRetry :
      (pas : List PaData) (r : Hint × Bool)
      → IsSetToRetry r
      → IsSetToRetry (recover_each noise etypes pas r)
  unfolding recover_each
  recover_each-IsSetToRetry [] r i = i
  recover_each-IsSetToRetry (pa ∷ pas) r i =
      recover_each-IsSetToRetry pas _ (by_type (is_etype_info pa.padatatype) pa.einfos)
    where
      by_type :
          (b : Bool) (o : Option (Reply (List Einfo)))
          → IsSetToRetry (if b then recover_value noise (is_info2 pa.padatatype) etypes o r else r)
      by_type false o = i
      by_type true none = i
      by_type true (some einfos) =
          recover_preauth_info-IsSetToRetry (is_info2 pa.padatatype) einfos (r.0) (r.1) i

  pub recover_preauth-IsSetToRetry :
      (pas : Reply (List PaData)) (hint : Hint)
      → IsSetToRetry (recover_preauth noise etypes pas hint).1
  unfolding recover_preauth
  recover_preauth-IsSetToRetry pas hint =
      with_reply-keeps IsSetToRetry pas (λ l. (none, recover_each noise etypes l (hint, false)))
        (hint, false) (λ q. cc) (λ l. recover_each-IsSetToRetry l (hint, false) (λ q. cc))

-- A hint that holds a type is left, and no retry is asked for.
module _ (noise : Bool) (etypes : List ℕ) (hint : Hint) (set : hint.preauthetype ≢ 0) where
  recover_each_set :
      (pas : List PaData) (retry : Bool)
      → recover_each noise etypes pas (hint, retry) ≡ (hint, retry)
  unfolding recover_each recover_preauth_info
  recover_each_set [] retry = refl
  recover_each_set (pa ∷ pas) retry =
      ap (recover_each noise etypes pas) (by_type (is_etype_info pa.padatatype) pa.einfos)
      ∙ recover_each_set pas retry
    where
      unset : (hint.preauthetype == 0) ≡ false
      unset = ground arith

      by_type :
          (b : Bool) (o : Option (Reply (List Einfo)))
          → (if b
              then recover_value noise (is_info2 pa.padatatype) etypes o (hint, retry)
              else (hint, retry))
            ≡ (hint, retry)
      by_type false o = refl
      by_type true none = refl
      by_type true (some einfos) = rw (recover_value, unset)

  pub recover_preauth_set :
      (pas : Reply (List PaData)) → (recover_preauth noise etypes pas hint).1.1 ≡ false
  unfolding recover_preauth
  recover_preauth_set (reply l) = ap (λ r. r.1) (recover_each_set l false)
  recover_preauth_set (refuse rc) = refl
