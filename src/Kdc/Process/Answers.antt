-- ===== src/Kdc/Process/Answers.antt =====
-- What the KDC answers: which exchange the bytes of an answer encode.
use shishi.Base.{
  Bool, true, false, Option, none, some, Bytes, ◌==◌, if◌then◌else◌, ◌≡◌, ◌⊎◌, inl, inr, refl,
  arith,
}
use shishi.Outcome.{Rc, Outcome, ok, failed, overrun, minus_one, asn1_error}
use shishi.Kdc.Steps.{Flow, go_on, fatal, beyond, hangs, flow_of}
use shishi.Kdc.{Exchange, Server}
use shishi.Kdc.Asreq.{AsReq, asreq1}
use shishi.Kdc.Asreq.Chosen
use shishi.Kdc.Asreq.Issued.{asreq1-IsIssued, asreq1-IsUnbuilt}
use shishi.Kdc.Asreq.Issued as AsIssued
use shishi.Kdc.Tgsreq.{TgsReq, tgsreq1}
use shishi.Kdc.Tgsreq.Found
use shishi.Kdc.Tgsreq.Issued.{tgsreq1-IsIssued, tgsreq1-IsUnbuilt}
use shishi.Kdc.Tgsreq.Issued as TgsIssued
use shishi.Kdc.Process.{
  Messages, encoded, with_exchange, as_req_type, tgs_req_type, asreq, tgsreq, process_node, process,
}

-- The bytes encode an issued reply; or one that has not been built; or a KRB-ERROR, and no reply has
-- been built.
pub data IsAnswer (rep_der krberror_der : Exchange → Outcome Bytes) (IsIssued : Exchange → Type 0)
    (IsUnbuilt : Option Rc → Exchange → Type 0) (out : Bytes) : Type 0 where
  reply :
      (t : Exchange)
      → IsIssued t
      → rep_der t ≡ ok out
      → IsAnswer rep_der krberror_der IsIssued IsUnbuilt out
  no_reply :
      (t : Exchange)
      → IsUnbuilt none t
      → rep_der t ≡ ok out
      → IsAnswer rep_der krberror_der IsIssued IsUnbuilt out
  refusal :
      (rc : Rc) (t : Exchange)
      → IsUnbuilt (some rc) t
      → krberror_der t ≡ ok out
      → IsAnswer rep_der krberror_der IsIssued IsUnbuilt out

flow_of-go_on : {A : Type 0} (o : Outcome A) {a : A} → flow_of o ≡ go_on a → o ≡ ok a
flow_of-go_on (ok a) e = cc
flow_of-go_on (failed rc) e = cc
flow_of-go_on overrun e = cc

module _ (rep_der krberror_der : Exchange → Outcome Bytes) (IsIssued : Exchange → Type 0)
    (IsUnbuilt : Option Rc → Exchange → Type 0) where
  encoded-IsAnswer :
      (r : Flow (Unit {0}) × Exchange) (out : Bytes)
      → ((u : Unit {0}) (t : Exchange) → r ≡ (go_on u, t) → IsIssued t)
      → ((rc : Option Rc) (t : Exchange) → r ≡ (fatal rc, t) → IsUnbuilt rc t)
      → encoded rep_der krberror_der r ≡ go_on out
      → IsAnswer rep_der krberror_der IsIssued IsUnbuilt out
  encoded-IsAnswer (go_on u, t) out f g e = reply t (f u t refl) (flow_of-go_on (rep_der t) e)
  encoded-IsAnswer (fatal none, t) out f g e =
      no_reply t (g none t refl) (flow_of-go_on (rep_der t) e)
  encoded-IsAnswer (fatal (some rc), t) out f g e =
      refusal rc t (g (some rc) t refl) (flow_of-go_on (krberror_der t) e)
  encoded-IsAnswer (beyond, t) out f g e = absurd cc
  encoded-IsAnswer (hangs, t) out f g e = absurd cc

module _ (m : Messages) {S : Type 0} (sv : Server S) (s : S) where
  -- The answer to an AS-REQ in an exchange that is new
  pub record IsAsAnswer (req : AsReq) (out : Bytes) : Type 0 where
    pub new : Exchange
    pub is_new : m.new_as ≡ ok new
    pub answer :
        IsAnswer m.as_rep_der m.as_krberror_der
          (AsIssued.IsIssued sv req s)
          (Chosen.IsUnbuilt sv req new)
          out

  pub record IsTgsAnswer (req : TgsReq) (out : Bytes) : Type 0 where
    pub new : Exchange
    pub is_new : m.new_tgs ≡ ok new
    pub answer :
        IsAnswer m.tgs_rep_der m.tgs_krberror_der
          (TgsIssued.IsIssued sv req s)
          (Found.IsUnbuilt sv req new)
          out

  asreq-IsAsAnswer : (req : AsReq) (out : Bytes) → asreq m sv s req ≡ go_on out → IsAsAnswer req out
  unfolding asreq
  asreq-IsAsAnswer req out e = go m.new_as refl e
    where
      go :
          (o : Outcome Exchange)
          → m.new_as ≡ o
          → with_exchange
              (flow_of o)
              (λ x. encoded m.as_rep_der m.as_krberror_der (asreq1 sv req s x))
            ≡ go_on out
          → IsAsAnswer req out
      go (ok x) n e = record {
        new = x;
        is_new = n;
        answer =
            encoded-IsAnswer m.as_rep_der m.as_krberror_der _ _ (asreq1 sv req s x) out
              (asreq1-IsIssued sv req s x) (asreq1-IsUnbuilt sv req s x) e;
      }
      go (failed rc) n e = absurd cc
      go overrun n e = absurd cc

  tgsreq-IsTgsAnswer :
      (req : TgsReq) (out : Bytes) → tgsreq m sv s req ≡ go_on out → IsTgsAnswer req out
  unfolding tgsreq
  tgsreq-IsTgsAnswer req out e = go m.new_tgs refl e
    where
      go :
          (o : Outcome Exchange)
          → m.new_tgs ≡ o
          → with_exchange
              (flow_of o)
              (λ x. encoded m.tgs_rep_der m.tgs_krberror_der (tgsreq1 sv req s x))
            ≡ go_on out
          → IsTgsAnswer req out
      go (ok x) n e = record {
        new = x;
        is_new = n;
        answer =
            encoded-IsAnswer m.tgs_rep_der m.tgs_krberror_der _ _ (tgsreq1 sv req s x) out
              (tgsreq1-IsIssued sv req s x) (tgsreq1-IsUnbuilt sv req s x) e;
      }
      go (failed rc) n e = absurd cc
      go overrun n e = absurd cc

  -- What process answers is the answer to an AS-REQ or to a TGS-REQ: the encoding of a reply that has
  -- been issued, of a KRB-ERROR when none has been built, or of a reply that has not been built,
  -- which happens only without a ticket, or to an AS-REQ whose `till` is no time.
  pub process_answers :
      (inp out : Bytes)
      → process m sv s inp ≡ go_on out
      → (node : m.Node) × (m.der2asn1 inp ≡ some node)
        × (((m.msgtype node ≡ as_req_type) × IsAsAnswer (m.as_req node) out)
            ⊎ ((m.msgtype node ≡ tgs_req_type) × IsTgsAnswer (m.tgs_req node) out))
  unfolding process process_node
  process_answers inp out e = go (m.der2asn1 inp) refl e
    where
      by_type :
          (node : m.Node) (a b : Bool)
          → (m.msgtype node == as_req_type) ≡ a
          → (m.msgtype node == tgs_req_type) ≡ b
          → (if a
              then asreq m sv s (m.as_req node)
              else if b
              then tgsreq m sv s (m.tgs_req node)
              else fatal (some asn1_error))
            ≡ go_on out
          → ((m.msgtype node ≡ as_req_type) × IsAsAnswer (m.as_req node) out)
            ⊎ ((m.msgtype node ≡ tgs_req_type) × IsTgsAnswer (m.tgs_req node) out)
      by_type node true b p q e = inl (ground (arith, p), asreq-IsAsAnswer (m.as_req node) out e)
      by_type node false true p q e =
          inr (ground (arith, q), tgsreq-IsTgsAnswer (m.tgs_req node) out e)
      by_type node false false p q e = absurd cc

      go :
          (o : Option m.Node)
          → m.der2asn1 inp ≡ o
          → (elim o [ none ↦ fatal (some minus_one) | some node ↦ process_node m sv s node ])
            ≡ go_on out
          → (node : m.Node) × (m.der2asn1 inp ≡ some node)
            × (((m.msgtype node ≡ as_req_type) × IsAsAnswer (m.as_req node) out)
                ⊎ ((m.msgtype node ≡ tgs_req_type) × IsTgsAnswer (m.tgs_req node) out))
      go none d e = absurd cc
      go (some node) d e = (node, d, by_type node _ _ refl refl e)
