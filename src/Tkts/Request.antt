-- ===== src/Tkts/Request.antt =====
-- Setting flags and times in a request: act_hint_on_kdcreq of lib/tkts.c, over the calls that change the
-- request, which are a parameter. A time that is 0 is not set.
use shishi.Base.{ℕ, ◌+◌, Bool, true, false, Option, none, some, ◌==◌, if◌then◌else◌}
use shishi.Outcome.{Rc}
use shishi.Tkt.{has_bit, forwardable, forwarded, proxiable, proxy, renewable}
use shishi.Hint.{Hint}
use shishi.Tkts.Preauth.{Call}

-- shishi_asn1_write of a time in "req-body.from" and so on, shishi_kdcreq_options_add and
-- shishi_kdcreq_set_etype
pub record KdcReqCalls (S : Type 0) : Type 0 where
  pub write_from : ℕ → Call S
  pub write_till : ℕ → Call S
  pub write_rtime : ℕ → Call S
  pub options_add : ℕ → Call S
  pub set_etype : ℕ → Call S

-- SHISHI_KDCOPTIONS_FORWARDABLE and so on
abbrev pub option_forwardable : ℕ
option_forwardable = 0x2

abbrev pub option_forwarded : ℕ
option_forwarded = 0x4

abbrev pub option_proxiable : ℕ
option_proxiable = 0x8

abbrev pub option_proxy : ℕ
option_proxy = 0x10

abbrev pub option_renewable : ℕ
option_renewable = 0x100

-- `if (rc == SHISHI_OK) rc = call (...);`
infixl 5 ◌then_call◌
abbrev pub ◌then_call◌ : {S : Type 0} → Option Rc × S → Call S → Option Rc × S
(none, s) then_call call = call s
(some rc, s) then_call call = (some rc, s)

-- A call that is made under a condition
abbrev pub call_if : {S : Type 0} → Bool → Call S → Call S
call_if true call s = call s
call_if false call s = (none, s)

abbrev pub is_set : ℕ → Bool
is_set time = if time == 0 then false else true

abbrev pub or_else : ℕ → ℕ → ℕ
or_else time default = if time == 0 then default else time

unfoldable pub act_hint_on_kdcreq :
    {S : Type 0} → KdcReqCalls S → (ticketlife renewlife now : ℕ) → Hint → Call S
act_hint_on_kdcreq x ticketlife renewlife now hint s =
    let starttime = or_else hint.starttime now in
    let endtime = or_else hint.endtime (starttime + ticketlife) in
    let renew_till = or_else hint.renew_till (starttime + renewlife) in
    call_if (is_set hint.starttime) (x.write_from starttime) s
    then_call call_if (is_set hint.endtime) (x.write_till endtime)
    then_call call_if (has_bit forwardable hint.tktflags) (x.options_add option_forwardable)
    then_call call_if (has_bit forwarded hint.tktflags) (x.options_add option_forwarded)
    then_call call_if (has_bit renewable hint.tktflags)
        (λ t. x.options_add option_renewable t then_call x.write_rtime renew_till)
    then_call call_if (has_bit proxiable hint.tktflags) (x.options_add option_proxiable)
    then_call call_if (has_bit proxy hint.tktflags) (x.options_add option_proxy)
    then_call call_if (is_set hint.etype) (x.set_etype hint.etype)
