-- ===== src/Ccache/Parse/Bounds.antt =====
-- What the readers of lib/ccache.c take from the buffer, on any input.
use shishi.Base.{
  ℕ, zero, suc, ◌+◌, ◌≤◌, ◌≡◌, refl, sym, ◌∙◌, ap, [], ◌∷◌, ◌++◌, Bytes, append_assoc, length,
  length-append, take, drop, take-append-drop, drop-append_self, if◌then◌else◌, arith, leb, Bool,
  true, false,
}
use shishi.Outcome.{
  Outcome, ok, failed, overrun, Rc, minus_one, bind-eq-ok, pure, fail, ◌>>=◌, ◌>>◌,
}
use shishi.Ccache.{
  Principal, Credential, max_components, Reader, get_uint8, get_uint16, get_uint32,
  get_uint32_swapped, get_data, check_zero, check_zero_if_any,
}
use shishi.Ccache.Parse.{
  parse_components, parse_principal, skip_address, skip_authdata, skip_each, parse_credential_body,
  parse_credential, parsed_credential, ccache_parse_credential,
}

-- `t` is what is left of `s` behind at least `k` bytes.
abbrev pub Took : ℕ → Bytes → Bytes → Type 0
Took k s t = (front : Bytes) × (s ≡ front ++ t) × (k ≤ length front)

-- A reader that succeeds has taken at least `k` bytes off the front.
pub record Reads {A : Type 0} (m : Reader A) (k : ℕ) : Type 0 where
  pub took : (s : Bytes) (a : A) (t : Bytes) → m s ≡ ok (a, t) → Took k s t

Took-append : (k l : ℕ) (s t u : Bytes) → Took k s t → Took l t u → Took (k + l) s u
Took-append k l s t u (f, e, h) (g, e', h') =
    (f ++ g, e ∙ ap (◌++◌ f) e' ∙ sym (append_assoc f g u), omega (arith, length-append f g))

module _ {A B : Type 0} where
  pub Reads-bind :
      (m : Reader A) (f : A → Reader B) (k l : ℕ)
      → Reads m k
      → ((a : A) → Reads (f a) l)
      → Reads (m >>= f) (k + l)
  Reads-bind m f k l hm hf = record {
    took = λ s b u e.
        let (a, t, p, q) = bind-eq-ok m f s e in
        Took-append k l s t u (hm.took s a t p) ((hf a).took t b u q);
  }

module _ {A : Type 0} where
  pub Reads-pure : (a : A) → Reads (pure a) 0
  Reads-pure a = record { took = λ s b t e. ([], ground arith, omega arith) }

  Reads-fail : (rc : Rc) (k : ℕ) → Reads (fail {A = A} rc) k
  Reads-fail rc k = record { took = λ s b t e. cc }

  Reads-if :
      (b : Bool) (m n : Reader A) (k : ℕ) → Reads m k → Reads n k → Reads (if b then m else n) k
  Reads-if true m n k hm hn = hm
  Reads-if false m n k hm hn = hn

pub Reads-weaken : {A : Type 0} (m : Reader A) (k l : ℕ) → l ≤ k → Reads m k → Reads m l
Reads-weaken m k l h r = record {
  took = λ s a t e. let (f, p, q) = r.took s a t e in (f, p, omega arith);
}

Reads-get_uint8 : Reads get_uint8 1
unfolding get_uint8
Reads-get_uint8 = record { took = go }
  where
    go : (s : Bytes) (a : ℕ) (t : Bytes) → get_uint8 s ≡ ok (a, t) → Took 1 s t
    go [] a t e = cc
    go (p0 ∷ s) a t e = (p0 ∷ [], ground arith, omega arith)

pub Reads-get_uint16 : Reads get_uint16 2
unfolding get_uint16
Reads-get_uint16 = record { took = go }
  where
    go : (s : Bytes) (a : ℕ) (t : Bytes) → get_uint16 s ≡ ok (a, t) → Took 2 s t
    go [] a t e = cc
    go (p0 ∷ []) a t e = cc
    go (p0 ∷ p1 ∷ s) a t e = (p0 ∷ p1 ∷ [], ground arith, omega arith)

Reads-get_uint32 : Reads get_uint32 4
unfolding get_uint32
Reads-get_uint32 = record { took = go }
  where
    go : (s : Bytes) (a : ℕ) (t : Bytes) → get_uint32 s ≡ ok (a, t) → Took 4 s t
    go [] a t e = cc
    go (p0 ∷ []) a t e = cc
    go (p0 ∷ p1 ∷ []) a t e = cc
    go (p0 ∷ p1 ∷ p2 ∷ []) a t e = cc
    go (p0 ∷ p1 ∷ p2 ∷ p3 ∷ s) a t e = (p0 ∷ p1 ∷ p2 ∷ p3 ∷ [], ground arith, omega arith)

Reads-get_uint32_swapped : Reads get_uint32_swapped 4
unfolding get_uint32_swapped
Reads-get_uint32_swapped = record { took = go }
  where
    go : (s : Bytes) (a : ℕ) (t : Bytes) → get_uint32_swapped s ≡ ok (a, t) → Took 4 s t
    go [] a t e = cc
    go (p0 ∷ []) a t e = cc
    go (p0 ∷ p1 ∷ []) a t e = cc
    go (p0 ∷ p1 ∷ p2 ∷ []) a t e = cc
    go (p0 ∷ p1 ∷ p2 ∷ p3 ∷ s) a t e = (p0 ∷ p1 ∷ p2 ∷ p3 ∷ [], ground arith, omega arith)

pub Reads-get_data : (n : ℕ) → Reads (get_data n) 0
unfolding get_data
Reads-get_data n = record {
  took = λ s a t e. (take n s, ground (arith, take-append-drop n s), omega arith);
}

Reads-check_zero : Reads check_zero 0
unfolding check_zero
Reads-check_zero = record { took = go }
  where
    go : (s : Bytes) (a : Unit {0}) (t : Bytes) → check_zero s ≡ ok (a, t) → Took 0 s t
    go [] a t e = cc
    go (b ∷ s) a t e = ([], ground arith, omega arith)

Reads-check_zero_if_any : Reads check_zero_if_any 0
unfolding check_zero_if_any
Reads-check_zero_if_any = record { took = go }
  where
    go : (s : Bytes) (a : Unit {0}) (t : Bytes) → check_zero_if_any s ≡ ok (a, t) → Took 0 s t
    go [] a t e = ([], ground arith, omega arith)
    go (b ∷ s) a t e = ([], ground arith, omega arith)

Reads-then :
    {A : Type 0} (m : Reader (Unit {0})) (n : Reader A) (k l : ℕ)
    → Reads m k
    → Reads n l
    → Reads (m >> n) (k + l)
Reads-then m n k l hm hn = Reads-bind m (λ _. n) k l hm (λ _. hn)

Reads-parse_components : (n : ℕ) → Reads (parse_components n) 0
unfolding parse_components
Reads-parse_components zero = Reads-pure []
Reads-parse_components (suc n) = Reads-weaken _ 4 0 (omega arith) (
    Reads-bind get_uint32 _ 4 0 Reads-get_uint32 λ l.
      Reads-bind (get_data l) _ 0 0 (Reads-get_data l) λ c.
        Reads-then check_zero_if_any _ 0 0 Reads-check_zero_if_any (
          Reads-bind (parse_components n) _ 0 0 (Reads-parse_components n)
            λ cs. Reads-pure (c ∷ cs)))

pub Reads-parse_principal : Reads parse_principal 12
unfolding parse_principal
Reads-parse_principal = Reads-bind get_uint32 _ 4 8 Reads-get_uint32 λ name_type.
    Reads-bind get_uint32 _ 4 4 Reads-get_uint32 λ num_components.
      Reads-if (leb max_components num_components) _ _ 4 (Reads-fail minus_one 4) (
        Reads-bind get_uint32 _ 4 0 Reads-get_uint32 λ realm_length.
          Reads-bind (get_data realm_length) _ 0 0 (Reads-get_data realm_length) λ realm.
            Reads-then check_zero _ 0 0 Reads-check_zero (
              Reads-bind (parse_components num_components) _ 0 0
                (Reads-parse_components num_components) λ cs. Reads-pure _))

Reads-skip_address : Reads skip_address 0
unfolding skip_address
Reads-skip_address = Reads-weaken _ 6 0 (omega arith) (
    Reads-bind get_uint16 _ 2 4 Reads-get_uint16 λ _.
      Reads-bind get_uint32 _ 4 0 Reads-get_uint32
        λ n. Reads-bind (get_data n) _ 0 0 (Reads-get_data n) λ _. Reads-pure tt)

Reads-skip_authdata : Reads skip_authdata 0
unfolding skip_authdata
Reads-skip_authdata = Reads-weaken _ 6 0 (omega arith) (
    Reads-bind get_uint16 _ 2 4 Reads-get_uint16 λ _.
      Reads-bind get_uint32 _ 4 0 Reads-get_uint32
        λ n. Reads-bind (get_data n) _ 0 0 (Reads-get_data n) λ _. Reads-pure tt)

Reads-skip_each : (skip : Reader (Unit {0})) (n : ℕ) → Reads skip 0 → Reads (skip_each skip n) 0
unfolding skip_each
Reads-skip_each skip zero h = Reads-pure tt
Reads-skip_each skip (suc n) h = Reads-then skip _ 0 0 h (Reads-skip_each skip n h)

Reads-parse_credential_body :
    (client server : Principal) → Reads (parse_credential_body client server) 43
unfolding parse_credential_body
Reads-parse_credential_body client server = Reads-bind get_uint16 _ 2 41 Reads-get_uint16 λ keytype.
    Reads-bind get_uint16 _ 2 39 Reads-get_uint16 λ etype.
      Reads-bind get_uint16 _ 2 37 Reads-get_uint16 λ keylen.
        Reads-bind (get_data keylen) _ 0 37 (Reads-get_data keylen) λ keyvalue.
          Reads-bind get_uint32 _ 4 33 Reads-get_uint32 λ authtime.
            Reads-bind get_uint32 _ 4 29 Reads-get_uint32 λ starttime.
              Reads-bind get_uint32 _ 4 25 Reads-get_uint32 λ endtime.
                Reads-bind get_uint32 _ 4 21 Reads-get_uint32 λ renew_till.
                  Reads-bind get_uint8 _ 1 20 Reads-get_uint8 λ is_skey.
                    Reads-bind get_uint32_swapped _ 4 16 Reads-get_uint32_swapped λ tktflags.
                      Reads-bind get_uint32 _ 4 12 Reads-get_uint32 λ num_address.
                        Reads-then (skip_each skip_address num_address) _ 0 12
                          (Reads-skip_each skip_address num_address Reads-skip_address)
                          (Reads-bind get_uint32 _ 4 8 Reads-get_uint32 λ num_authdata.
                            Reads-then (skip_each skip_authdata num_authdata) _ 0 8
                              (Reads-skip_each skip_authdata num_authdata Reads-skip_authdata)
                              (Reads-bind get_uint32 _ 4 4 Reads-get_uint32 λ ticket_length.
                                Reads-bind (get_data ticket_length) _ 0 4
                                  (Reads-get_data ticket_length)
                                  λ ticket.
                                    Reads-bind get_uint32 _ 4 0 Reads-get_uint32 λ second_length.
                                      Reads-bind (get_data second_length) _ 0 0
                                        (Reads-get_data second_length) λ second. Reads-pure _))

Reads-parse_credential : Reads parse_credential 67
unfolding parse_credential
Reads-parse_credential = Reads-bind parse_principal _ 12 55 Reads-parse_principal λ client.
    Reads-then check_zero_if_any _ 0 55 Reads-check_zero_if_any (
      Reads-bind parse_principal _ 12 43 Reads-parse_principal λ server.
        Reads-then check_zero_if_any _ 0 43 Reads-check_zero_if_any
          (Reads-parse_credential_body client server))

ok-pair :
    (c d : Credential) (m n : ℕ)
    → ◌≡◌ {A = Outcome (Credential × ℕ)} (ok (c, m)) (ok (d, n))
    → (c ≡ d) × (n ≡ m)
ok-pair c d m n e = (cc, cc)

-- When `ccache_parse_credential` succeeds, on any input, the count that it returns is at least 67,
-- the size of the fixed fields, and at most the length of the input, and `parse_credential` has
-- left exactly the bytes behind that count.
pub ccache_parse_credential_bounds :
    (s : Bytes) (c : Credential) (n : ℕ)
    → ccache_parse_credential s ≡ ok (c, n)
    → (67 ≤ n) × (n ≤ length s) × (parse_credential s ≡ ok (c, drop n s))
unfolding ccache_parse_credential parsed_credential
ccache_parse_credential_bounds s c n = go (parse_credential s) refl
  where
    go :
        (r : Outcome (Credential × Bytes))
        → parse_credential s ≡ r
        → parsed_credential s r ≡ ok (c, n)
        → (67 ≤ n) × (n ≤ length s) × (r ≡ ok (c, drop n s))
    go (failed rc) e p = cc
    go overrun e p = cc
    go (ok (d, t)) e p =
        let (front, split, long) = Reads-parse_credential.took s d t e in
        let (same, counted) = ok-pair d c _ n p in
        let size : n ≡ length front =
          omega (arith, counted, ap (length {0}) split, length-append front t) in
        (
          omega arith,
          omega (arith, ap (length {0}) split, length-append front t),
          cc (same, ap (λ x. drop n x) split, drop-append_self n front t (sym size)),
        )
