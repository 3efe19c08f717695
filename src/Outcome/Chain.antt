-- ===== src/Outcome/Chain.antt =====
-- Calls one behind the other, where no state is passed on: a call that does not succeed is the
-- whole block's outcome.
use shishi.Base.{◌≡◌, refl, ◌⊎◌, inl, inr}
use shishi.Outcome.{Outcome, Rc, ok, failed, overrun}

infixl 5 ◌>>=◌
abbrev pub ◌>>=◌ {ℓ κ} : {A : Type ℓ} {B : Type κ} → Outcome A → (A → Outcome B) → Outcome B
ok a >>= f = f a
failed rc >>= f = failed rc
overrun >>= f = overrun

module _ {A B : Type 0} (m : Outcome A) (f : A → Outcome B) where
  pub chain_ok : {a : A} → m ≡ ok a → (m >>= f) ≡ f a
  chain_ok e = rw e

  pub chain-eq-ok : {b : B} → (m >>= f) ≡ ok b → (a : A) × (m ≡ ok a) × (f a ≡ ok b)
  chain-eq-ok {b} e = go m refl e
    where
      go : (r : Outcome A) → m ≡ r → (r >>= f) ≡ ok b → (a : A) × (m ≡ ok a) × (f a ≡ ok b)
      go (ok a) q p = (a, q, p)
      go (failed rc) q p = cc
      go overrun q p = cc

-- To split on a call and keep the equation.
pub Outcome-cases {ℓ} :
    {A : Type ℓ} (m : Outcome A)
    → ((a : A) × (m ≡ ok a)) ⊎ (((rc : Rc) × (m ≡ failed rc)) ⊎ (m ≡ overrun))
Outcome-cases (ok a) = inl (a, refl)
Outcome-cases (failed rc) = inr (inl (rc, refl))
Outcome-cases overrun = inr (inr refl)
