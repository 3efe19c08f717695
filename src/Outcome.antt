-- ===== src/Outcome.antt =====
-- What a call of the library comes to: SHISHI_OK with a value, a return code other than
-- SHISHI_OK, or what C leaves undefined: an access beyond the end of a buffer, a division by zero.
-- Return codes: lib/shishi.h (Shishi_rc); lib/ccache.c returns -1 for all of them.

pub mod Chain
use shishi.Base.{ℕ, ◌≡◌, refl, ◌∙◌, ◌⊎◌, inl, inr}

pub data Rc : Type 0 where
  minus_one keytab_error invalid_key io_error : Rc
  not_ok crypto_error too_small_buffer ccache_error asn1_error : Rc
  invalid_tkts invalid_ticket invalid_principal_name got_krberror : Rc
  other_rc : ℕ → Rc

pub data Outcome {ℓ} (A : Type ℓ) : Type ℓ where
  ok : A → Outcome A
  failed : Rc → Outcome A
  overrun : Outcome A

-- A step over a state: what is left to read, or the buffer that is written.
abbrev pub Step : Type 0 → Type 0 → Type 0
Step S A = S → Outcome (A × S)

module _ {S : Type 0} where
  abbrev pub pure : {A : Type 0} → A → Step S A
  pure a s = ok (a, s)

  abbrev pub fail : {A : Type 0} → Rc → Step S A
  fail rc s = failed rc

  infixl 5 ◌>>=◌ ◌>>◌
  abbrev pub ◌>>=◌ : {A B : Type 0} → Step S A → (A → Step S B) → Step S B
  ◌>>=◌ m f s = elim (m s) [ ok (a, t) ↦ f a t | failed rc ↦ failed rc | overrun ↦ overrun ]

  abbrev pub ◌>>◌ : {B : Type 0} → Step S (Unit {0}) → Step S B → Step S B
  m >> k = m >>= λ _. k

-- One step of a block, by what its action comes to.
module _ {S A B : Type 0} (m : Step S A) (f : A → Step S B) where
  pub bind_ok : {s t : S} {a : A} → m s ≡ ok (a, t) → (m >>= f) s ≡ f a t
  bind_ok e = rw (e, ◌>>=◌)

  pub then_ok :
      {s t : S} {a : A} {r : Outcome (B × S)} → m s ≡ ok (a, t) → f a t ≡ r → (m >>= f) s ≡ r
  then_ok e k = bind_ok e ∙ k

  pub bind_failed : {s : S} {rc : Rc} → m s ≡ failed rc → (m >>= f) s ≡ failed rc
  bind_failed e = rw (e, ◌>>=◌)

  pub bind_overrun : {s : S} → m s ≡ overrun → (m >>= f) s ≡ overrun
  bind_overrun e = rw (e, ◌>>=◌)

  pub bind_cong : (n : Step S A) {s : S} → m s ≡ n s → (m >>= f) s ≡ (n >>= f) s
  bind_cong n e = rw (e, ◌>>=◌)

  -- What a block that succeeds went through.
  pub bind-eq-ok :
      (s : S) {b : B} {u : S}
      → (m >>= f) s ≡ ok (b, u)
      → (a : A) × (t : S) × (m s ≡ ok (a, t)) × (f a t ≡ ok (b, u))
  bind-eq-ok s {b} {u} e = go (m s) refl e
    where
      go :
          (r : Outcome (A × S))
          → m s ≡ r
          → (elim r [ ok (a, t) ↦ f a t | failed rc ↦ failed rc | overrun ↦ overrun ]) ≡ ok (b, u)
          → (a : A) × (t : S) × (m s ≡ ok (a, t)) × (f a t ≡ ok (b, u))
      go (ok (a, t)) q p = (a, t, q, p)
      go (failed rc) q p = cc
      go overrun q p = cc

  -- What a block that runs past the end went through.
  pub bind-eq-overrun :
      (s : S)
      → (m >>= f) s ≡ overrun
      → (m s ≡ overrun) ⊎ ((a : A) × (t : S) × (m s ≡ ok (a, t)) × (f a t ≡ overrun))
  bind-eq-overrun s e = go (m s) refl e
    where
      go :
          (r : Outcome (A × S))
          → m s ≡ r
          → (elim r [ ok (a, t) ↦ f a t | failed rc ↦ failed rc | overrun ↦ overrun ]) ≡ overrun
          → (m s ≡ overrun) ⊎ ((a : A) × (t : S) × (m s ≡ ok (a, t)) × (f a t ≡ overrun))
      go (ok (a, t)) q p = inr (a, t, q, p)
      go (failed rc) q p = cc
      go overrun q p = inl q
