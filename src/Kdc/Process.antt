-- ===== src/Kdc/Process.antt =====
-- asreq, tgsreq and process of src/kdc.c: from the bytes of a request to those of the answer.
pub mod Answers
pub mod Refused
use shishi.Base.{ℕ, Option, none, some, Bytes, ◌==◌, if◌then◌else◌}
use shishi.Outcome.{Outcome, minus_one, asn1_error}
use shishi.Kdc.Steps.{Flow, go_on, fatal, beyond, hangs, flow_of, then_run}
use shishi.Kdc.{Exchange, Server}
use shishi.Kdc.Asreq.{AsReq, asreq1}
use shishi.Kdc.Tgsreq.{TgsReq, tgsreq1}

-- What the ASN.1 library makes of the bytes of a message, a new exchange of both kinds, and the
-- encodings of its reply and of its KRB-ERROR
pub record Messages : Type 1 where
  pub Node : Type 0
  pub der2asn1 : Bytes → Option Node
  pub msgtype : Node → ℕ
  pub as_req : Node → AsReq
  pub tgs_req : Node → TgsReq
  pub new_as : Outcome Exchange
  pub new_tgs : Outcome Exchange
  pub as_rep_der : Exchange → Outcome Bytes
  pub as_krberror_der : Exchange → Outcome Bytes
  pub tgs_rep_der : Exchange → Outcome Bytes
  pub tgs_krberror_der : Exchange → Outcome Bytes

-- The encoding of the reply where the return code is SHISHI_OK, else that of the KRB-ERROR
abbrev pub encoded :
    (Exchange → Outcome Bytes)
    → (Exchange → Outcome Bytes)
    → Flow (Unit {0}) × Exchange
    → Flow Bytes
encoded rep_der krberror_der (go_on u, x) = flow_of (rep_der x)
encoded rep_der krberror_der (fatal none, x) = flow_of (rep_der x)
encoded rep_der krberror_der (fatal (some rc), x) = flow_of (krberror_der x)
encoded rep_der krberror_der (beyond, x) = beyond
encoded rep_der krberror_der (hangs, x) = hangs

-- What follows shishi_as or shishi_tgs
abbrev pub with_exchange : Flow Exchange → (Exchange → Flow Bytes) → Flow Bytes
with_exchange (go_on x) f = f x
with_exchange (fatal rc) f = fatal rc
with_exchange beyond f = beyond
with_exchange hangs f = hangs

-- SHISHI_MSGTYPE_AS_REQ and SHISHI_MSGTYPE_TGS_REQ
abbrev pub as_req_type : ℕ
as_req_type = 10

abbrev pub tgs_req_type : ℕ
tgs_req_type = 12

module _ (m : Messages) {S : Type 0} (sv : Server S) (s : S) where
  unfoldable pub asreq : AsReq → Flow Bytes
  unfolding asreq1
  asreq req =
      with_exchange (flow_of m.new_as)
        λ x. encoded m.as_rep_der m.as_krberror_der (asreq1 sv req s x)

  unfoldable pub tgsreq : TgsReq → Flow Bytes
  unfolding tgsreq1
  tgsreq req =
      with_exchange (flow_of m.new_tgs)
        λ x. encoded m.tgs_rep_der m.tgs_krberror_der (tgsreq1 sv req s x)

  -- The switch over the type of the message
  unfoldable pub process_node : m.Node → Flow Bytes
  unfolding asreq tgsreq
  process_node node =
      if m.msgtype node == as_req_type
      then asreq (m.as_req node)
      else if m.msgtype node == tgs_req_type
      then tgsreq (m.tgs_req node)
      else fatal (some asn1_error)

  -- `fatal` is -1.
  unfoldable pub process : Bytes → Flow Bytes
  unfolding process_node
  process inp = elim (m.der2asn1 inp) [
    | none ↦ fatal (some minus_one)
    | some node ↦ process_node node
  ]
