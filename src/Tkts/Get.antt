-- ===== src/Tkts/Get.antt =====
-- Getting a ticket: shishi_tkts_get, shishi_tkts_get_tgt and shishi_tkts_get_tgs of lib/tkts.c. The
-- set is not NULL. What the AS and TGS exchanges come to is a parameter: the calls of lib/as.c,
-- lib/tgs.c, over a state `S` that holds the requests, the network and the
-- user. `time (NULL)` is an argument `now`.
pub mod Turn
pub mod Ends
pub mod Keeps
use Prim.Native.Char.{code}
use Prim.Native.String.{String}
use shishi.Base.{
  ℕ, zero, suc, Bool, true, false, List, [], ◌∷◌, ◌++◌, Option, none, some, Bytes, ◌==◌, ◌&&◌,
  if◌then◌else◌,
}
use shishi.Outcome.{Rc, got_krberror, ok, failed, overrun}
use shishi.Tkt.{Tkt, has_bit}
use shishi.Hint.{Hint, match_p, set_tgtflags_based_on_hint}
use shishi.Tkts.{tkts_find, tkts_add}
use shishi.Tkts.Request.{KdcReqCalls, ◌then_call◌, act_hint_on_kdcreq}
use shishi.Tkts.Preauth.{Call, Reply, with_reply, PreauthCalls, PaData, do_preauth, recover_preauth}

-- The calls of the two exchanges: as_begin is shishi_as, and tgs_begin is shishi_tgs with
-- shishi_tgs_tgtkt_set.
pub record KdcCalls (S : Type 0) : Type 1 where
  pub preauth : PreauthCalls S
  pub as_begin : Call S
  pub as_req : KdcReqCalls S
  pub as_req_build : Call S
  pub as_sendrecv_hint : Hint → Call S
  pub as_rep_process : Option Bytes → Call S
  pub krberror_errorcode : S → ℕ
  pub krberror_methoddata : S → Reply (List PaData)
  pub as_tkt : S → Option Tkt
  pub tgs_begin : Tkt → Call S
  pub tgs_req : KdcReqCalls S
  pub tgs_set_server : Option Bytes → Call S
  pub tgs_req_build : Call S
  pub tgs_sendrecv_hint : Hint → Call S
  pub tgs_rep_process : Call S
  pub tgs_tkt : S → Option Tkt

-- What the library is set up with
pub record Settings : Type 0 where
  pub noise : Bool
  pub clientkdcetypes : List ℕ
  pub realm_default : Bytes
  pub now : ℕ
  pub ticketlife : ℕ
  pub renewlife : ℕ

-- A call that leaves the hint
abbrev pub beside : {H S : Type 0} → Call S → Call (H × S)
beside call t = let r = call (t.1) in (r.0, (t.0, r.1))

-- SHISHI_KDC_ERR_PREAUTH_REQUIRED
abbrev pub preauth_required : ℕ
preauth_required = 25

abbrev pub is_krberror : Option Rc → Bool
is_krberror none = false
is_krberror (some got_krberror) = true
is_krberror (some _) = false

-- SHISHI_TKTSHINTFLAGS_NON_INTERACTIVE
abbrev pub non_interactive : ℕ
non_interactive = 2

-- `memset (&lochint, 0, sizeof (lochint))`
abbrev pub no_hint : Hint
no_hint = record {
  startpos = 0;
  server = none;
  serverrealm = none;
  client = none;
  clientrealm = none;
  flags = 0;
  tktflags = 0;
  kdcoptions = 0;
  etype = 0;
  passwd = none;
  starttime = 0;
  endtime = 0;
  renew_till = 0;
  preauthetype = 0;
  preauthsalt = none;
  preauths2kparams = none;
}

-- "krbtgt/" and the realm
unfoldable pub tgt_server : Bytes → Option Bytes → Bytes
tgt_server realm_default none = b'k' ∷ b'r' ∷ b'b' ∷ b't' ∷ b'g' ∷ b't' ∷ b'/' ∷ realm_default
tgt_server realm_default (some serverrealm) =
    b'k' ∷ b'r' ∷ b'b' ∷ b't' ∷ b'g' ∷ b't' ∷ b'/' ∷ serverrealm

-- The hint for the ticket granting ticket
unfoldable pub tgt_hint : Settings → Hint → Hint
unfolding tgt_server
tgt_hint settings hint =
    set_tgtflags_based_on_hint hint
      (record no_hint { server = some (tgt_server settings.realm_default hint.serverrealm) })

module _ {S : Type 0} (x : KdcCalls S) where
  abbrev pub act_hint : Settings → KdcReqCalls S → Hint → Call S
  act_hint settings req hint s =
      act_hint_on_kdcreq req settings.ticketlife settings.renewlife settings.now hint s

  -- One turn from `again` to the processing of the reply
  unfoldable pub as_exchange : Settings → Hint → S → Option Rc × (Hint × S)
  as_exchange settings lochint s =
      beside x.as_begin (lochint, s)
      then_call (λ t. beside (act_hint settings x.as_req (t.0)) t)
      then_call (λ t. do_preauth x.preauth (t.0) (t.1))
      then_call beside x.as_req_build
      then_call (λ t. beside (x.as_sendrecv_hint (t.0)) t)
      then_call (λ t. beside (x.as_rep_process (t.0.passwd)) t)

  -- What follows a recovery: `again` is what follows `goto again`.
  unfoldable pub after_recovery :
      (Hint → S → Option (Option Tkt × S)) → S → Option Rc × (Hint × Bool) → Option (Option Tkt × S)
  after_recovery again s (some rc, r) = some (none, s)
  after_recovery again s (none, (lochint, true)) = again lochint s
  after_recovery again s (none, (lochint, false)) = some (none, s)

  -- What follows an exchange, by whether pre-authentication is required
  unfoldable pub after_exchange :
      Settings
      → (Hint → S → Option (Option Tkt × S))
      → Bool
      → Option Rc × (Hint × S)
      → Option (Option Tkt × S)
  unfolding after_recovery
  after_exchange settings again true (rc, (lochint, s)) =
      after_recovery again s
        (recover_preauth settings.noise settings.clientkdcetypes (x.krberror_methoddata s) lochint)
  after_exchange settings again false (some rc, (lochint, s)) = some (none, s)
  after_exchange settings again false (none, (lochint, s)) = some (x.as_tkt s, s)

  unfoldable pub is_preauth_required : Option Rc × (Hint × S) → Bool
  is_preauth_required r = is_krberror (r.0) && (x.krberror_errorcode (r.1.1) == preauth_required)

  -- The loop of `goto again`. The outer `none` is that the fuel ran out, the inner one NULL.
  unfoldable pub as_loop : Settings → ℕ → Hint → S → Option (Option Tkt × S)
  unfolding after_exchange is_preauth_required
  as_loop settings zero lochint s = none
  as_loop settings (suc fuel) lochint s =
      let r = as_exchange settings lochint s in
      after_exchange settings (λ h t. as_loop settings fuel h t) (is_preauth_required r) r

  -- `rc = shishi_tkts_add (tkts, tkt)`, whose failure is only printed
  unfoldable pub tkts_with : List Tkt → Option Tkt → List Tkt
  tkts_with tkts tkt = elim (tkts_add tkts tkt) [
    | ok added ↦ added
    | failed rc ↦ tkts
    | overrun ↦ tkts
  ]

  -- The ticket, the set and the state afterwards
  unfoldable pub add_gotten : List Tkt → Option Tkt × S → Option Tkt × (List Tkt × S)
  unfolding tkts_with
  add_gotten tkts (none, s) = (none, (tkts, s))
  add_gotten tkts (some tkt, s) = (some tkt, (tkts_with tkts (some tkt), s))

  unfoldable pub add_once_gotten :
      List Tkt → Option (Option Tkt × S) → Option (Option Tkt × (List Tkt × S))
  unfolding add_gotten
  add_once_gotten tkts none = none
  add_once_gotten tkts (some r) = some (add_gotten tkts r)

  -- `lochint.server` is freed and set to NULL behind the search.
  unfoldable pub tkts_get_tgt :
      Settings → ℕ → List Tkt → Hint → S → Option (Option Tkt × (List Tkt × S))
  unfolding as_loop add_once_gotten
  tkts_get_tgt settings fuel tkts hint s =
      let r = tkts_find settings.now (some tkts) (tgt_hint settings hint) in
      elim (r.0) [
        | some tgt ↦ some (some tgt, (tkts, s))
        | none ↦
            let fetched = as_loop settings fuel (record (r.1) { server = none }) s in
            if has_bit non_interactive hint.flags
            then some (none, (tkts, s))
            else add_once_gotten tkts fetched
      ]

  unfoldable pub tgs_exchange : Settings → Hint → Tkt → Call S
  tgs_exchange settings hint tgt s =
      x.tgs_begin tgt s
      then_call act_hint settings x.tgs_req hint
      then_call x.tgs_set_server hint.server
      then_call x.tgs_req_build
      then_call x.tgs_sendrecv_hint hint
      then_call x.tgs_rep_process

  unfoldable pub processed : Option Rc × S → Option Tkt × S
  processed (some rc, s) = (none, s)
  processed (none, s) = (x.tgs_tkt s, s)

  unfoldable pub tkts_get_tgs : Settings → List Tkt → Hint → Tkt → S → Option Tkt × (List Tkt × S)
  unfolding tgs_exchange processed add_gotten
  tkts_get_tgs settings tkts hint tgt s =
      add_gotten tkts (processed (tgs_exchange settings hint tgt s))

  -- What shishi_tkts_get does with what shishi_tkts_get_tgt gave
  unfoldable pub use_tgt :
      Settings → Hint → Option (Option Tkt × (List Tkt × S)) → Option (Option Tkt × (List Tkt × S))
  unfolding tkts_get_tgs
  use_tgt settings hint none = none
  use_tgt settings hint (some (none, r)) = some (none, r)
  use_tgt settings hint (some (some tgt, (tkts, s))) =
      if match_p settings.now tgt hint
      then some (some tgt, (tkts, s))
      else some (tkts_get_tgs settings tkts hint tgt s)

  unfoldable pub tkts_get :
      Settings → ℕ → List Tkt → Hint → S → Option (Option Tkt × (List Tkt × S))
  unfolding use_tgt tkts_get_tgt
  tkts_get settings fuel tkts hint s =
      let r = tkts_find settings.now (some tkts) (record hint { startpos = 0 }) in
      elim (r.0) [
        | some tkt ↦ some (some tkt, (tkts, s))
        | none ↦ use_tgt settings (r.1) (tkts_get_tgt settings fuel tkts (r.1) s)
      ]
