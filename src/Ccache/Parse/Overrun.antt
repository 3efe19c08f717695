-- ===== src/Ccache/Parse/Overrun.antt =====
-- The test for a zero behind the realm in parse_principal, lib/ccache.c, reads the byte behind the
-- realm with no look at `*len`.
use shishi.Base.{
  ℕ, zero, suc, ◌≤◌, ◌<◌, ◌≡◌, ◌≢◌, ◌↔◌, refl, sym, ◌∙◌, ap, [], ◌∷◌, Bytes, length, take, drop,
  length-drop, arith, inl, inr, lt→leb_false, le→leb, le→ltb_false,
}
use native.Mathlib.Decide.{dec_lt}
use shishi.Outcome.{ok, overrun, then_ok, bind-eq-overrun, pure, ◌>>=◌, ◌>>◌}
use shishi.Wire.{masked32}
use shishi.Ccache.{
  Principal, max_components, Reader, get_uint32, get_data, check_zero, check_zero_if_any,
}
use shishi.Ccache.Parse.{parse_components, parse_principal}

-- The readers with a length check never run past the end.
get_uint32-ne-overrun : (s : Bytes) → get_uint32 s ≢ overrun
unfolding get_uint32
get_uint32-ne-overrun (a ∷ b ∷ c ∷ d ∷ s) e = cc
get_uint32-ne-overrun _ e = cc

get_data-ne-overrun : (n : ℕ) (s : Bytes) → get_data n s ≢ overrun
unfolding get_data
get_data-ne-overrun n s e = ground arith

check_zero_if_any-ne-overrun : (s : Bytes) → check_zero_if_any s ≢ overrun
unfolding check_zero_if_any
check_zero_if_any-ne-overrun [] e = cc
check_zero_if_any-ne-overrun (b ∷ s) e = ground arith

check_zero-eq-overrun : (s : Bytes) → check_zero s ≡ overrun → s ≡ []
unfolding check_zero
check_zero-eq-overrun [] e = refl
check_zero-eq-overrun (b ∷ s) e = ground arith

-- A block overruns only in its second part where the first never does.
past :
    {A B : Type 0} (m : Reader A) (f : A → Reader B) (s : Bytes)
    → ((t : Bytes) → m t ≢ overrun)
    → (m >>= f) s ≡ overrun
    → (a : A) × (t : Bytes) × (m s ≡ ok (a, t)) × (f a t ≡ overrun)
past m f s safe e = elim (bind-eq-overrun m f s e) [ inl h ↦ absurd (safe s h) | inr r ↦ r ]

parse_components-ne-overrun : (n : ℕ) (s : Bytes) → parse_components n s ≢ overrun
unfolding parse_components
parse_components-ne-overrun zero s e = cc
parse_components-ne-overrun (suc n) s e =
    let (l, t, _, e1) = past get_uint32 _ s get_uint32-ne-overrun e in
    let (d, u, _, e2) = past (get_data l) _ t (get_data-ne-overrun l) e1 in
    let (_, v, _, e3) = past check_zero_if_any _ u check_zero_if_any-ne-overrun e2 in
    let (cs, w, _, e4) = past (parse_components n) _ v (parse_components-ne-overrun n) e3 in cc

-- A principal whose realm ends where the buffer ends.
abbrev pub EndsAtRealm : Bytes → Type 0
EndsAtRealm (t0 ∷ t1 ∷ t2 ∷ t3 ∷ n0 ∷ n1 ∷ n2 ∷ n3 ∷ l0 ∷ l1 ∷ l2 ∷ l3 ∷ realm) =
    (masked32 n0 n1 n2 n3 < max_components) × (masked32 l0 l1 l2 l3 ≡ length realm)
EndsAtRealm _ = ⊥

get_data-eq-ok :
    (n : ℕ) (s d t : Bytes) → get_data n s ≡ ok (d, t) → (n ≤ length s) × (t ≡ drop n s)
unfolding get_data
get_data-eq-ok n s d t e = (ground arith, ground arith)

drop_all : (n : ℕ) (s : Bytes) → n ≡ length s → drop n s ≡ []
drop_all zero [] h = refl
drop_all (suc n) [] h = refl
drop_all zero (x ∷ s) h = absurd (omega arith)
drop_all (suc n) (x ∷ s) h = drop_all n s (omega arith)

-- parse_principal from the realm's bytes on
abbrev from_realm : ℕ → ℕ → ℕ → Reader Principal
from_realm name_type n l = do
  realm ← get_data l
  check_zero
  components ← parse_components n
  pure (record { name_type = name_type; realm = realm; components = components })

from_realm-overrun :
    (name_type n l : ℕ) (s : Bytes) → from_realm name_type n l s ≡ overrun → l ≡ length s
from_realm-overrun name_type n l s e =
    let (realm, t, read, e1) = past (get_data l) _ s (get_data-ne-overrun l) e in
    let (long, rest) = get_data-eq-ok l s realm t read in
    elim (bind-eq-overrun check_zero _ t e1) [
      | inl h ↦
          omega (arith, length-drop l s, ap (length {0}) (sym rest ∙ check_zero-eq-overrun t h))
      | inr (_, u, _, e2) ↦
          let (cs, v, _, e3) = past (parse_components n) _ u (parse_components-ne-overrun n) e2 in
          cc
    ]

from_realm-ends :
    (name_type n l : ℕ) (s : Bytes) → l ≡ length s → from_realm name_type n l s ≡ overrun
unfolding get_data check_zero
from_realm-ends name_type n l s h =
    then_ok (get_data l) _ {t = []} {a = take l s}
      (rw (le→ltb_false (length s) l (omega arith)) (ap (λ x. ok (take l s, x)) (drop_all l s h)))
      refl

-- The parser looks at the byte behind the realm also where the realm ends the buffer: it reads
-- past the end on exactly the inputs that hold a name type, a number of components below 5, and a
-- realm of just the bytes that are left.
pub parse_principal-overrun_iff : (s : Bytes) → (parse_principal s ≡ overrun) ↔ EndsAtRealm s
unfolding parse_principal get_uint32
parse_principal-overrun_iff (t0 ∷ t1 ∷ t2 ∷ t3 ∷ n0 ∷ n1 ∷ n2 ∷ n3 ∷ l0 ∷ l1 ∷ l2 ∷ l3 ∷ s) =
    elim (dec_lt (masked32 n0 n1 n2 n3) max_components) [
      | yes few ↦
          rw (lt→leb_false max_components (masked32 n0 n1 n2 n3) few)
            (λ e. (few, from_realm-overrun _ _ _ s e), λ h. from_realm-ends _ _ _ s h.1)
      | no many ↦
          rw (le→leb max_components (masked32 n0 n1 n2 n3) (omega arith))
            ((λ e. cc), λ h. absurd (many h.0))
    ]
parse_principal-overrun_iff _ = ((λ e. ground arith), λ h. absurd h)
