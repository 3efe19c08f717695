-- ===== src/Tkts/Get/Ends.antt =====
-- The loop of shishi_tkts_get_tgt of lib/tkts.c ends: the second turn cannot ask for a third.
use shishi.Base.{
  ℕ, suc, Bool, true, false, List, Option, none, some, All, if◌then◌else◌, ◌≡◌, ◌≢◌, refl, sym, ◌∙◌,
  arith, Option-cases, inl, inr,
}
use shishi.Outcome.{Rc}
use shishi.Tkt.{Tkt, has_bit}
use shishi.Hint.{Hint, match_p}
use shishi.Tkts.{tkts_find}
use shishi.Tkts.Preauth.{recover_preauth}
use shishi.Tkts.Get.{
  KdcCalls, Settings, as_exchange, after_recovery, after_exchange, as_loop, add_gotten,
  add_once_gotten, non_interactive, tkts_get_tgs, tkts_get_tgt, use_tgt, tkts_get, tgt_hint,
}
use shishi.Tkts.Preauth.Retry.{IsSetToRetry, recover_preauth-IsSetToRetry, recover_preauth_set}
use shishi.Tkts.Get.Turn.{as_exchange-keeps}

-- What a loop that ends gives
abbrev Ended {ℓ} : {A : Type ℓ} → Option A → Type ℓ
Ended {A} o = (r : A) × (o ≡ some r)

module _ {S : Type 0} (x : KdcCalls S) (settings : Settings) where
  -- A turn ends where what a retry begins ends.
  after_recovery-ends :
      (again : Hint → S → Option (Option Tkt × S)) (s : S) (r : Option Rc × (Hint × Bool))
      → (r.1.1 ≡ true → Ended (again r.1.0 s))
      → Ended (after_recovery x again s r)
  unfolding after_recovery
  after_recovery-ends again s (some rc, r) k = ((none, s), refl)
  after_recovery-ends again s (none, (lochint, true)) k = k refl
  after_recovery-ends again s (none, (lochint, false)) k = ((none, s), refl)

  after_exchange-ends :
      (again : Hint → S → Option (Option Tkt × S)) (required : Bool) (r : Option Rc × (Hint × S))
      → ((q : Hint × Bool)
          → (recover_preauth settings.noise settings.clientkdcetypes
              (x.krberror_methoddata r.1.1)
              r.1.0).1
            ≡ q
          → q.1 ≡ true
          → Ended (again q.0 r.1.1))
      → Ended (after_exchange x settings again required r)
  unfolding after_exchange
  after_exchange-ends again true (rc, (lochint, s)) k = after_recovery-ends again s _ (k _ refl)
  after_exchange-ends again false (some rc, (lochint, s)) k = ((none, s), refl)
  after_exchange-ends again false (none, (lochint, s)) k = ((x.as_tkt s, s), refl)

  -- With a type set, the loop makes one turn.
  as_loop_set :
      (fuel : ℕ) (hint : Hint) (s : S)
      → hint.preauthetype ≢ 0
      → Ended (as_loop x settings (suc fuel) hint s)
  unfolding as_loop
  as_loop_set fuel hint s h =
      let r = as_exchange x settings hint s in
      let kept = as_exchange-keeps x hint.preauthetype settings hint s refl in
      let set : r.1.0.preauthetype ≢ 0 = λ z. h (sym kept ∙ z) in
      after_exchange-ends _ _ r (λ q e t. absurd (
        no_retry q e t (
          recover_preauth_set settings.noise settings.clientkdcetypes r.1.0 set
            (x.krberror_methoddata r.1.1))))
    where
      no_retry : (q : Hint × Bool) {u : Hint × Bool} → u ≡ q → q.1 ≡ true → u.1 ≡ false → ⊥
      no_retry q e t f = ground arith

  as_loop_lem :
      (fuel : ℕ) (hint : Hint) (s : S)
      → All (λ e. e ≢ 0) settings.clientkdcetypes
      → Ended (as_loop x settings (suc (suc fuel)) hint s)
  unfolding as_loop
  as_loop_lem fuel hint s h =
      let r = as_exchange x settings hint s in
      after_exchange-ends _ _ r (λ q e t. as_loop_set fuel (q.0) (r.1.1) (
        set_at q e
          (recover_preauth-IsSetToRetry settings.noise settings.clientkdcetypes h
            (x.krberror_methoddata r.1.1) r.1.0)
          t))
    where
      set_at : (q : Hint × Bool) {u : Hint × Bool} → u ≡ q → IsSetToRetry u → IsSetToRetry q
      set_at q e i = rw (← e) i

  add_once_gotten-ends :
      (tkts : List Tkt) (o : Option (Option Tkt × S)) → Ended o → Ended (add_once_gotten x tkts o)
  unfolding add_once_gotten
  add_once_gotten-ends tkts none (r, e) = cc
  add_once_gotten-ends tkts (some r) e = (add_gotten x tkts r, refl)

  tkts_get_tgt-ends :
      (fuel : ℕ) (tkts : List Tkt) (hint : Hint) (s : S)
      → All (λ e. e ≢ 0) settings.clientkdcetypes
      → Ended (tkts_get_tgt x settings (suc (suc fuel)) tkts hint s)
  unfolding tkts_get_tgt
  tkts_get_tgt-ends fuel tkts hint s h =
      let r = tkts_find settings.now (some tkts) (tgt_hint settings hint) in
      elim (Option-cases (r.0)) [
        | inl e ↦
            rw (e, tkts_get_tgt)
              (by_test (record (r.1) { server = none }) (has_bit non_interactive hint.flags))
        | inr (tgt, e) ↦ rw (e, tkts_get_tgt) ((some tgt, (tkts, s)), refl)
      ]
    where
      by_test :
          (lochint : Hint) (b : Bool)
          → Ended (
              if b
              then some (none, (tkts, s))
              else add_once_gotten x tkts (as_loop x settings (suc (suc fuel)) lochint s))
      by_test lochint true = ((none, (tkts, s)), refl)
      by_test lochint false = add_once_gotten-ends tkts _ (as_loop_lem fuel lochint s h)

  use_tgt-ends :
      (hint : Hint) (o : Option (Option Tkt × (List Tkt × S)))
      → Ended o
      → Ended (use_tgt x settings hint o)
  unfolding use_tgt
  use_tgt-ends hint none (r, e) = cc
  use_tgt-ends hint (some (none, r)) e = ((none, r), refl)
  use_tgt-ends hint (some (some tgt, (tkts, s))) e = by_test (match_p settings.now tgt hint)
    where
      by_test :
          (b : Bool)
          → Ended (
              if b
              then some (some tgt, (tkts, s))
              else some (tkts_get_tgs x settings tkts hint tgt s))
      by_test true = ((some tgt, (tkts, s)), refl)
      by_test false = (tkts_get_tgs x settings tkts hint tgt s, refl)

  -- `shishi_tkts_get` ends, after two turns of the AS exchange at most, whatever the calls of the
  -- exchanges give, if the client's encryption types do not have 0.
  pub tkts_get-ends :
      (tkts : List Tkt) (hint : Hint) (s : S)
      → All (λ e. e ≢ 0) settings.clientkdcetypes
      → (r : Option Tkt × (List Tkt × S)) × (tkts_get x settings 2 tkts hint s ≡ some r)
  unfolding tkts_get
  tkts_get-ends tkts hint s h =
      let r = tkts_find settings.now (some tkts) (record hint { startpos = 0 }) in
      elim (Option-cases (r.0)) [
        | inl e ↦
            rw (e, tkts_get)
              (use_tgt-ends (r.1) (tkts_get_tgt x settings 2 tkts (r.1) s)
                (tkts_get_tgt-ends 0 tkts (r.1) s h))
        | inr (tkt, e) ↦ rw (e, tkts_get) ((some tkt, (tkts, s)), refl)
      ]
