-- ===== src/Tkts/Preauth.antt =====
-- Pre-authentication: do_preauth, recover_preauth_info and recover_preauth of lib/tkts.c. What the
-- code reads in the ASN.1 nodes of the KDC's answer is data: `none` is a read that fails. `noise` is
-- VERBOSENOISE, and an integer that is 0 or a pointer that is NULL is not set in the hint.
pub mod Retry
pub mod Best
use shishi.Base.{
  ℕ, ◌+◌, Bool, true, false, ◌&&◌, ◌||◌, List, [], ◌∷◌, Option, none, some, Bytes, get_elem?, ltb,
  ◌==◌, if◌then◌else◌,
}
use shishi.Outcome.{Rc}
use shishi.Hint.{Hint}

-- A call that gives a value, or a return code other than SHISHI_OK
pub data Reply {ℓ} (A : Type ℓ) : Type ℓ where
  reply : A → Reply A
  refuse : Rc → Reply A

-- A call over a state; the return code `none` is SHISHI_OK.
abbrev pub Call : Type 0 → Type 0
Call S = S → Option Rc × S

-- `if (rc != SHISHI_OK) return rc;` behind a call that gives a value
abbrev pub with_reply : {A T : Type 0} → Reply A → (A → Option Rc × T) → T → Option Rc × T
with_reply (reply a) k t = k a
with_reply (refuse rc) k t = (some rc, t)

-- `if (rc != SHISHI_OK) return rc;` behind a call that changes what `T` holds
abbrev pub continue : {T U : Type 0} → Option Rc × T → (T → U) → (T → Option Rc × U) → Option Rc × U
continue (some rc, t) stop k = (some rc, stop t)
continue (none, t) stop k = k t

-- What the pre-authentication asks of the rest of the library and of the user, over a state `S` that
-- holds the AS request and all else
pub record PreauthCalls (S : Type 0) : Type 1 where
  pub Key : Type 0
  pub clientrealm : S → Reply Bytes
  pub prompt_password : Bytes → S → Reply Bytes × S
  pub derive_default_salt : Bytes → Reply Bytes
  pub key_from_string : ℕ → Bytes → Bytes → Option Bytes → Reply Key
  pub add_padata_preauth : Key → Call S

module _ {S : Type 0} (x : PreauthCalls S) where
  unfoldable pub add_padata : Bytes → Bytes → Hint → S → Option Rc × (Hint × S)
  add_padata passwd salt hint s =
      with_reply (x.key_from_string hint.preauthetype passwd salt hint.preauths2kparams)
        (λ key. let r = x.add_padata_preauth key s in (r.0, (hint, r.1))) (hint, s)

  unfoldable pub salted : Bytes → Bytes → Hint → S → Option Rc × (Hint × S)
  unfolding add_padata
  salted user passwd hint s = elim hint.preauthsalt [
    | some salt ↦ add_padata passwd salt hint s
    | none ↦
        with_reply (x.derive_default_salt user)
          (λ salt. add_padata passwd salt (record hint { preauthsalt = some salt }) s) (hint, s)
  ]

  unfoldable pub ask_password : Bytes → Hint → S → Option Rc × (Hint × S)
  unfolding salted
  ask_password user hint s = elim hint.passwd [
    | some passwd ↦ salted user passwd hint s
    | none ↦
        let r = x.prompt_password user s in
        with_reply (r.0) (λ passwd. salted user passwd (record hint { passwd = some passwd }) (r.1))
          (hint, r.1)
  ]

  unfoldable pub do_preauth : Hint → S → Option Rc × (Hint × S)
  unfolding ask_password
  do_preauth hint s =
      if hint.preauthetype == 0
      then (none, (hint, s))
      else with_reply (x.clientrealm s) (λ user. ask_password user hint s) (hint, s)

-- `SHISHI_ASN1_NO_ELEMENT` of a read leaves the destination, another code is returned.
pub data Element : Type 0 where
  present : Bytes → Element
  absent : Element
  unreadable : Rc → Element

pub record Einfo : Type 0 where
  pub etype : Option ℕ
  pub salt : Element
  pub s2kparams : Element

unfoldable pub read_s2kparams : Element → Hint → Option Rc × Hint
read_s2kparams (present bytes) hint = (none, record hint { preauths2kparams = some bytes })
read_s2kparams absent hint = (none, hint)
read_s2kparams (unreadable rc) hint = (some rc, hint)

unfoldable pub read_s2kparams_if : Bool → Element → Hint → Option Rc × Hint
unfolding read_s2kparams
read_s2kparams_if isinfo2 s2kparams hint =
    if isinfo2 then read_s2kparams s2kparams hint else (none, hint)

-- The salt and the parameters of an entry, under `New best etype`
unfoldable pub read_params : Bool → Element → Element → Hint → Option Rc × Hint
unfolding read_s2kparams_if
read_params isinfo2 (present bytes) s2kparams hint =
    read_s2kparams_if isinfo2 s2kparams (record hint { preauthsalt = some bytes })
read_params isinfo2 absent s2kparams hint = read_s2kparams_if isinfo2 s2kparams hint
read_params isinfo2 (unreadable rc) s2kparams hint = (some rc, hint)

-- `j < foundpos` and `MIN (foundpos, j)`, where SIZE_MAX is `none`
abbrev pub before_found : ℕ → Option ℕ → Bool
before_found j none = true
before_found j (some foundpos) = ltb j foundpos

abbrev pub closer : Option ℕ → ℕ → Option ℕ
closer none j = some j
closer (some foundpos) j = if ltb foundpos j then some foundpos else some j

-- The loop over the client's types from position `j` on, for an entry of type `etype`
unfoldable pub try_etypes :
    (noise isinfo2 : Bool)
    → Einfo
    → ℕ
    → ℕ
    → List ℕ
    → Option ℕ
    → Hint
    → Option Rc × (Option ℕ × Hint)
unfolding read_params
try_etypes noise isinfo2 einfo etype j [] foundpos hint = (none, (foundpos, hint))
try_etypes noise isinfo2 einfo etype j (e ∷ es) foundpos hint = elim (etype == e) [
  | true ↦
      continue
        (if before_found j foundpos && noise
          then read_params isinfo2 einfo.salt einfo.s2kparams hint
          else (none, hint))
        (λ h. (foundpos, h))
        (λ h. try_etypes noise isinfo2 einfo etype (j + 1) es (closer foundpos j) h)
  | false ↦ try_etypes noise isinfo2 einfo etype (j + 1) es foundpos hint
]

-- The loop over the entries
unfoldable pub try_einfos :
    (noise isinfo2 : Bool) → List ℕ → List Einfo → Option ℕ → Hint → Option Rc × (Option ℕ × Hint)
unfolding try_etypes
try_einfos noise isinfo2 etypes [] foundpos hint = (none, (foundpos, hint))
try_einfos noise isinfo2 etypes (einfo ∷ einfos) foundpos hint = elim einfo.etype [
  | none ↦ try_einfos noise isinfo2 etypes einfos foundpos hint
  | some etype ↦
      continue (try_etypes noise isinfo2 einfo etype 0 etypes foundpos hint) (λ r. r)
        (λ r. try_einfos noise isinfo2 etypes einfos (r.0) (r.1))
]

abbrev pub settled : Hint → Bool → Option ℕ → Option Rc × (Hint × Bool)
settled hint retry none = (none, (hint, retry))
settled hint retry (some etype) = (none, (record hint { preauthetype = etype }, true))

-- `lochint->preauthetype = clientkdcetypes[foundpos]; *retry = true;`
unfoldable pub use_found : List ℕ → Option Rc × (Option ℕ × Hint) → Bool → Option Rc × (Hint × Bool)
use_found etypes (some rc, (foundpos, hint)) retry = (some rc, (hint, retry))
use_found etypes (none, (none, hint)) retry = (none, (hint, retry))
use_found etypes (none, (some foundpos, hint)) retry =
    settled hint retry (get_elem? etypes foundpos)

-- `einfos` refuses where its elements cannot be counted.
unfoldable pub recover_preauth_info :
    (noise isinfo2 : Bool) → List ℕ → Reply (List Einfo) → Hint → Bool → Option Rc × (Hint × Bool)
unfolding use_found try_einfos
recover_preauth_info noise isinfo2 etypes einfos hint retry =
    if hint.preauthetype == 0
    then with_reply einfos
        (λ l. use_found etypes (try_einfos noise isinfo2 etypes l none hint) retry) (hint, retry)
    else (none, (hint, retry))

-- A PA-DATA of the METHOD-DATA: its type, and what its value is decoded to, where it is
pub record PaData : Type 0 where
  pub padatatype : Option ℕ
  pub einfos : Option (Reply (List Einfo))

-- SHISHI_PA_ETYPE_INFO and SHISHI_PA_ETYPE_INFO2
abbrev pub is_etype_info : Option ℕ → Bool
is_etype_info none = false
is_etype_info (some padatatype) = (padatatype == 11) || (padatatype == 19)

abbrev pub is_info2 : Option ℕ → Bool
is_info2 none = false
is_info2 (some padatatype) = padatatype == 19

-- What cannot be used of a PA-DATA is passed over.
unfoldable pub recover_value :
    (noise isinfo2 : Bool) → List ℕ → Option (Reply (List Einfo)) → Hint × Bool → Hint × Bool
unfolding recover_preauth_info
recover_value noise isinfo2 etypes none r = r
recover_value noise isinfo2 etypes (some einfos) r =
    (recover_preauth_info noise isinfo2 etypes einfos (r.0) (r.1)).1

-- The loop over the PA-DATA
unfoldable pub recover_each : (noise : Bool) → List ℕ → List PaData → Hint × Bool → Hint × Bool
unfolding recover_value
recover_each noise etypes [] r = r
recover_each noise etypes (pa ∷ pas) r = recover_each noise etypes pas (
    if is_etype_info pa.padatatype
    then recover_value noise (is_info2 pa.padatatype) etypes pa.einfos r
    else r)

-- The METHOD-DATA refuses where it cannot be decoded, and is empty where it cannot be counted.
unfoldable pub recover_preauth :
    (noise : Bool) → List ℕ → Reply (List PaData) → Hint → Option Rc × (Hint × Bool)
unfolding recover_each
recover_preauth noise etypes pas hint =
    with_reply pas (λ l. (none, recover_each noise etypes l (hint, false))) (hint, false)
