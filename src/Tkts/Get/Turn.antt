-- ===== src/Tkts/Get/Turn.antt =====
-- A turn of the loop of shishi_tkts_get_tgt of lib/tkts.c leaves the hint's type of pre-authentication.
use shishi.Base.{
  ℕ, Bool, true, false, Option, none, some, Bytes, ◌==◌, if◌then◌else◌, Option-cases, inl, inr,
}
use shishi.Outcome.{Rc}
use shishi.Hint.{Hint}
use shishi.Tkts.Preauth.{with_reply, add_padata, salted, ask_password, do_preauth}
use shishi.Tkts.Get.{KdcCalls, Settings, act_hint, beside, as_exchange}
use shishi.Tkts.Request.{◌then_call◌}
use shishi.Tkts.Preauth.Retry.{with_reply-keeps, Has}

module _ {S : Type 0} (x : KdcCalls S) (p : ℕ) where
  abbrev pub HasType : Hint × S → Type 0
  HasType t = Has p t.0

  then_call-keeps :
      (r : Option Rc × (Hint × S)) (call : Hint × S → Option Rc × (Hint × S))
      → HasType r.1
      → ((t : Hint × S) → HasType t → HasType (call t).1)
      → HasType (r then_call call).1
  then_call-keeps (some rc, t) call h k = h
  then_call-keeps (none, t) call h k = k t h

  add_padata-keeps :
      (passwd salt : Bytes) (hint : Hint) (s : S)
      → Has p hint
      → HasType (add_padata x.preauth passwd salt hint s).1
  unfolding add_padata
  add_padata-keeps passwd salt hint s h =
      with_reply-keeps HasType
        (x.preauth.key_from_string hint.preauthetype passwd salt hint.preauths2kparams)
        (λ key. let r = x.preauth.add_padata_preauth key s in (r.0, (hint, r.1))) (hint, s) h
        (λ key. h)

  salted-keeps :
      (user passwd : Bytes) (hint : Hint) (s : S)
      → Has p hint
      → HasType (salted x.preauth user passwd hint s).1
  unfolding salted
  salted-keeps user passwd hint s h = elim (Option-cases hint.preauthsalt) [
    | inl q ↦
        rw (q, salted)
          (with_reply-keeps HasType (x.preauth.derive_default_salt user)
            (λ salt. add_padata x.preauth passwd salt (record hint { preauthsalt = some salt }) s)
            (hint, s) h
            (λ salt. add_padata-keeps passwd salt (record hint { preauthsalt = some salt }) s h))
    | inr (salt, q) ↦ rw (q, salted) (add_padata-keeps passwd salt hint s h)
  ]

  ask_password-keeps :
      (user : Bytes) (hint : Hint) (s : S)
      → Has p hint
      → HasType (ask_password x.preauth user hint s).1
  unfolding ask_password
  ask_password-keeps user hint s h = elim (Option-cases hint.passwd) [
    | inl q ↦
        let r = x.preauth.prompt_password user s in
        rw (q, ask_password)
          (with_reply-keeps HasType (r.0)
            (λ passwd. salted x.preauth user passwd (record hint { passwd = some passwd }) (r.1))
            (hint, r.1) h
            (λ passwd. salted-keeps user passwd (record hint { passwd = some passwd }) (r.1) h))
    | inr (passwd, q) ↦ rw (q, ask_password) (salted-keeps user passwd hint s h)
  ]

  do_preauth-keeps : (hint : Hint) (s : S) → Has p hint → HasType (do_preauth x.preauth hint s).1
  unfolding do_preauth
  do_preauth-keeps hint s h = by_test (hint.preauthetype == 0)
    where
      by_test :
          (b : Bool)
          → HasType
              (if b
                then (none, (hint, s))
                else with_reply
                    (x.preauth.clientrealm s)
                    (λ user. ask_password x.preauth user hint s)
                    (hint, s)).1
      by_test true = h
      by_test false =
          with_reply-keeps HasType (x.preauth.clientrealm s)
            (λ user. ask_password x.preauth user hint s) (hint, s) h
            (λ user. ask_password-keeps user hint s h)

  pub as_exchange-keeps :
      (settings : Settings) (hint : Hint) (s : S)
      → Has p hint
      → HasType (as_exchange x settings hint s).1
  unfolding as_exchange
  as_exchange-keeps settings hint s h =
      let begun = beside x.as_begin (hint, s) in
      let act = λ (t : Hint × S). beside (act_hint x settings x.as_req t.0) t in
      let preauth = λ (t : Hint × S). do_preauth x.preauth (t.0) (t.1) in
      let built = begun then_call act then_call preauth then_call beside x.as_req_build in
      let sendrecv = λ (t : Hint × S). beside (x.as_sendrecv_hint t.0) t in
      then_call-keeps (built then_call sendrecv) (λ t. beside (x.as_rep_process (t.0.passwd)) t)
        (then_call-keeps built sendrecv
          (then_call-keeps (begun then_call act then_call preauth) (beside x.as_req_build)
            (then_call-keeps (begun then_call act) preauth (then_call-keeps begun act h (λ t k. k))
              (λ t k. do_preauth-keeps (t.0) (t.1) k))
            (λ t k. k))
          (λ t k. k))
        (λ t k. k)
