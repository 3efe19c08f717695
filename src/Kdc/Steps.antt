-- ===== src/Kdc/Steps.antt =====
-- What a function of src/kdc.c comes to, which leaves for its label `fatal` with a return code, and
-- the chains of such calls over a state that is changed on the way. `fatal none` has SHISHI_OK.
use shishi.Base.{Option, some, ◌≡◌, refl, sym}
use mathlib.Core.Path.{subst}
use shishi.Outcome.{Rc, Outcome}

pub data Flow {ℓ} (A : Type ℓ) : Type ℓ where
  go_on : A → Flow A
  fatal : Option Rc → Flow A
  beyond : Flow A
  hangs : Flow A

abbrev pub Run : Type 0 → Type 0 → Type 0
Run S A = S → Flow A × S

-- `if (rc != SHISHI_OK) goto fatal;` behind a call of the library
abbrev pub flow_of : {A : Type 0} → Outcome A → Flow A
flow_of (Outcome.ok a) = go_on a
flow_of (Outcome.failed rc) = fatal (some rc)
flow_of Outcome.overrun = beyond

module _ {S : Type 0} where
  abbrev pub pure : {A : Type 0} → A → Run S A
  pure a s = (go_on a, s)

  abbrev pub lift : {A : Type 0} → Flow A → Run S A
  lift r s = (r, s)

  abbrev pub stop : {A : Type 0} → Option Rc → Run S A
  stop rc s = (fatal rc, s)

  abbrev pub then_run : {A B : Type 0} → (A → Run S B) → Flow A × S → Flow B × S
  then_run f (go_on a, s) = f a s
  then_run f (fatal rc, s) = (fatal rc, s)
  then_run f (beyond, s) = (beyond, s)
  then_run f (hangs, s) = (hangs, s)

  infixl 5 ◌>>=◌ ◌>>◌
  abbrev pub ◌>>=◌ : {A B : Type 0} → Run S A → (A → Run S B) → Run S B
  ◌>>=◌ m f s = then_run f (m s)

  abbrev pub ◌>>◌ : {B : Type 0} → Run S (Unit {0}) → Run S B → Run S B
  m >> k = m >>= λ _. k

  -- What holds where a run goes on, and where it leaves for `fatal`
  abbrev pub Ends : {A : Type 0} → (A → S → Type 0) → (Option Rc → S → Type 0) → Flow A × S → Type 0
  Ends Q R (go_on a, s) = Q a s
  Ends Q R (fatal rc, s) = R rc s
  Ends Q R (beyond, s) = Unit {0}
  Ends Q R (hangs, s) = Unit {0}

  module _ {A B : Type 0} (Q : B → S → Type 0) (R : Option Rc → S → Type 0) where
    -- A call that changes nothing, and what follows it
    pub lift-Ends :
        (r : Flow A) (f : A → Run S B) (s : S)
        → ((rc : Option Rc) → r ≡ fatal rc → R rc s)
        → ((a : A) → r ≡ go_on a → Ends Q R (f a s))
        → Ends Q R ((lift r >>= f) s)
    lift-Ends (go_on a) f s h k = k a refl
    lift-Ends (fatal rc) f s h k = h rc refl
    lift-Ends beyond f s h k = tt
    lift-Ends hangs f s h k = tt

    -- A block in front of another
    pub bind-Ends :
        (P : A → S → Type 0) (m : Run S A) (f : A → Run S B) (s : S)
        → Ends P R (m s)
        → ((a : A) (t : S) → P a t → Ends Q R (f a t))
        → Ends Q R ((m >>= f) s)
    bind-Ends P m f s h k = go (m s) h
      where
        go : (r : Flow A × S) → Ends P R r → Ends Q R (then_run f r)
        go (go_on a, t) p = k a t p
        go (fatal rc, t) p = p
        go (beyond, t) p = tt
        go (hangs, t) p = tt

    -- A block that leaves the state as it was where it goes on
    pub kept-Ends :
        (P : A → Type 0) (m : Run S A) (f : A → Run S B) (s : S)
        → Ends (λ a t. P a × (t ≡ s)) R (m s)
        → ((a : A) → P a → Ends Q R (f a s))
        → Ends Q R ((m >>= f) s)
    kept-Ends P m f s h k =
        bind-Ends (λ a t. P a × (t ≡ s)) m f s h
          (λ a t p. subst (λ y. Ends Q R (f a y)) (sym (p.1)) (k a (p.0)))

  module _ {B : Type 0} (Q : B → S → Type 0) (R : Option Rc → S → Type 0) where
    -- What follows from what holds at the end
    pub map-Ends :
        (P : B → S → Type 0) (r : Flow B × S)
        → ((b : B) (t : S) → P b t → Q b t)
        → Ends P R r
        → Ends Q R r
    map-Ends P (go_on b, t) f p = f b t p
    map-Ends P (fatal rc, t) f p = p
    map-Ends P (beyond, t) f p = tt
    map-Ends P (hangs, t) f p = tt
