-- ===== src/Principal/ParseName.antt =====
-- What shishi_parse_name of lib/principal.c returns.
use shishi.Base.{
  ℕ, zero, suc, ◌+◌, ◌*◌, ◌<◌, ◌≤◌, Bool, true, false, [], ◌∷◌, ◌++◌, Option, none, some, Bytes,
  length, ◌==◌, inl, inr, if◌then◌else◌, ◌≡◌, refl, sym, ap, ◌∙◌, append_assoc, append-nil, arith,
  Bool-cases,
}
use shishi.Outcome.{Outcome, ok, failed, invalid_principal_name}
use shishi.Principal.{scan, parsed_realm, parse_name}

-- Whether the last byte is the escape character; `before` is whether the byte in front of all is.
unfoldable pub ends_escaped : Bool → Bytes → Bool
ends_escaped before [] = before
ends_escaped before (c ∷ cs) = ends_escaped (c == b'\\') cs

-- The bytes up to the first of a kind, and those from it on.
unfoldable pub up_to : ℕ → Bytes → Bytes
up_to at [] = []
up_to at (c ∷ cs) = if c == at then [] else c ∷ up_to at cs

unfoldable pub from : ℕ → Bytes → Bytes
from at [] = []
from at (c ∷ cs) = if c == at then c ∷ cs else from at cs

-- Whether the loop ends on an escape character: only at the end of the string.
unfoldable pub stops_escaped : ℕ → Bool → Bytes → Bool
stops_escaped at before [] = before
stops_escaped at before (c ∷ cs) = if c == at then false else stops_escaped at (c == b'\\') cs

-- the turn that an escape takes
unfoldable pub turns : Bool → Bytes → ℕ
turns true rest = 1 + 2 * length rest
turns false rest = 2 * length rest

shift : (xs ys : Bytes) (c : ℕ) → (xs ++ c ∷ []) ++ ys ≡ xs ++ c ∷ ys
shift xs ys c = append_assoc xs (c ∷ []) ys

turns_step : (b : Bool) (c : ℕ) (cs : Bytes) → turns b cs < turns false (c ∷ cs)
unfolding turns
turns_step true c cs = omega arith
turns_step false c cs = omega arith

turns_clear : (fuel : ℕ) (rest : Bytes) → turns true rest < suc fuel → turns false rest < fuel
unfolding turns
turns_clear fuel rest h = omega arith

scan-none :
    (fuel : ℕ) (e : Bool) (passed rest : Bytes)
    → turns e rest < fuel
    → scan none fuel e passed rest ≡ some (ends_escaped e rest, passed ++ rest, [])
unfolding scan ends_escaped
scan-none zero e passed rest h = absurd (omega arith)
scan-none (suc fuel) e passed [] h = ap (λ p. some (e, p, [])) (sym (append-nil passed))
scan-none (suc fuel) true passed (c ∷ cs) h =
    scan-none fuel false passed (c ∷ cs) (turns_clear fuel (c ∷ cs) h)
scan-none (suc fuel) false passed (c ∷ cs) h =
    scan-none fuel (c == b'\\') (passed ++ c ∷ []) cs
      (omega (arith, h, turns_step (c == b'\\') c cs))
    ∙ ap (λ p. some (ends_escaped (c == b'\\') cs, p, [])) (shift passed cs c)

scan-some :
    (at fuel : ℕ) (e : Bool) (passed rest : Bytes)
    → turns e rest < fuel
    → scan (some at) fuel e passed rest
      ≡ some (stops_escaped at e rest, passed ++ up_to at rest, from at rest)
unfolding scan stops_escaped up_to from
scan-some at zero e passed rest h = absurd (omega arith)
scan-some at (suc fuel) e passed [] h = ap (λ p. some (e, p, [])) (sym (append-nil passed))
scan-some at (suc fuel) true passed (c ∷ cs) h =
    scan-some at fuel false passed (c ∷ cs) (turns_clear fuel (c ∷ cs) h)
scan-some at (suc fuel) false passed (c ∷ cs) h = elim (Bool-cases (c == at)) [
  | inl e ↦ rw (e, scan, stops_escaped, up_to, from, append-nil passed)
  | inr e ↦
      let IH =
        scan-some at fuel (c == b'\\') (passed ++ c ∷ []) cs
          (omega (arith, h, turns_step (c == b'\\') c cs)) in
      rw (e, scan, stops_escaped, up_to, from, IH, shift passed (up_to at cs) c)
]

-- What a name stands for: it is cut at its first '@'.
unfoldable pub split_name : Bytes → Outcome (Bytes × Option Bytes)
split_name name = elim (from b'@' name) [
  | [] ↦ if ends_escaped false name then failed invalid_principal_name else ok (name, none)
  | at ∷ realm ↦
      if ends_escaped false realm
      then failed invalid_principal_name
      else ok (up_to b'@' name, some realm)
]

pub from_stop : (at c : ℕ) (cs : Bytes) → c == at ≡ true → from at (c ∷ cs) ≡ c ∷ cs
unfolding from
from_stop at c cs q = rw (q, from)

pub from_skip : (at c : ℕ) (cs : Bytes) → c == at ≡ false → from at (c ∷ cs) ≡ from at cs
unfolding from
from_skip at c cs q = rw (q, from)

pub stops_escaped_none :
    (at : ℕ) (e : Bool) (s : Bytes) → from at s ≡ [] → stops_escaped at e s ≡ ends_escaped e s
unfolding stops_escaped ends_escaped
stops_escaped_none at e [] h = refl
stops_escaped_none at e (c ∷ cs) h = elim (Bool-cases (c == at)) [
  | inl q ↦ let s = from_stop at c cs q in cc
  | inr q ↦
      rw (q, stops_escaped, ends_escaped)
        (stops_escaped_none at (c == b'\\') cs (sym (from_skip at c cs q) ∙ h))
]

stops_escaped_some :
    (at : ℕ) (e : Bool) (s : Bytes) (x : ℕ) (xs : Bytes)
    → from at s ≡ x ∷ xs
    → stops_escaped at e s ≡ false
unfolding stops_escaped from
stops_escaped_some at e [] x xs h = cc
stops_escaped_some at e (c ∷ cs) x xs h = elim (Bool-cases (c == at)) [
  | inl q ↦ rw (q, stops_escaped)
  | inr q ↦
      rw (q, stops_escaped)
        (stops_escaped_some at (c == b'\\') cs x xs (sym (from_skip at c cs q) ∙ h))
]

length-from : (at : ℕ) (s : Bytes) → length (from at s) ≤ length s
unfolding from
length-from at [] = omega arith
length-from at (c ∷ cs) = elim (Bool-cases (c == at)) [
  | inl q ↦ rw (q, from) (omega arith)
  | inr q ↦ rw (q, from) (omega (arith, length-from at cs))
]

pub up_to-all : (at : ℕ) (s : Bytes) → from at s ≡ [] → up_to at s ≡ s
unfolding up_to
up_to-all at [] h = refl
up_to-all at (c ∷ cs) h = elim (Bool-cases (c == at)) [
  | inl q ↦ let s = from_stop at c cs q in cc
  | inr q ↦ rw (q, up_to, up_to-all at cs (sym (from_skip at c cs q) ∙ h))
]

-- A name without an '@'.
parse_whole :
    (fuel : ℕ) (name : Bytes) (b : Bool)
    → scan (some b'@') fuel false [] name ≡ some (b, name, [])
    → parse_name fuel (some name)
      ≡ some (if b then failed invalid_principal_name else ok (name, none))
unfolding parse_name parsed_realm
parse_whole fuel name true h = rw (h, parse_name)
parse_whole fuel name false h = rw (h, parse_name)

-- A name with one.
parse_parts :
    (fuel : ℕ) (name principal realm p : Bytes) (x : ℕ) (b : Bool)
    → scan (some b'@') fuel false [] name ≡ some (false, principal, x ∷ realm)
    → scan none fuel false [] realm ≡ some (b, p, [])
    → parse_name fuel (some name)
      ≡ some (if b then failed invalid_principal_name else ok (principal, some realm))
unfolding parse_name parsed_realm
parse_parts fuel name principal realm p x true h k = rw (h, parse_name, parsed_realm, k)
parse_parts fuel name principal realm p x false h k = rw (h, parse_name, parsed_realm, k)

split_whole :
    (name : Bytes)
    → from b'@' name ≡ []
    → split_name name
      ≡ (if ends_escaped false name then failed invalid_principal_name else ok (name, none))
unfolding split_name
split_whole name q = rw (q, split_name)

pub split_parts :
    (name realm : Bytes) (x : ℕ)
    → from b'@' name ≡ x ∷ realm
    → split_name name ≡ (
        if ends_escaped false realm
        then failed invalid_principal_name
        else ok (up_to b'@' name, some realm))
unfolding split_name
split_parts name realm x q = rw (q, split_name)

-- With fuel for two turns a byte, `shishi_parse_name` ends. It cuts the name at its first '@',
-- whether or not an escape character is in front, and fails when the part behind it, or a name
-- without one, ends with the escape character.
pub parse_name_lem :
    (fuel : ℕ) (name : Bytes)
    → 2 * length name < fuel
    → parse_name fuel (some name) ≡ some (split_name name)
unfolding turns
parse_name_lem fuel name h = go (from b'@' name) refl
  where
    first :
        scan (some b'@') fuel false [] name
        ≡ some (stops_escaped b'@' false name, up_to b'@' name, from b'@' name)
    first = scan-some b'@' fuel false [] name h

    go : (r : Bytes) → from b'@' name ≡ r → parse_name fuel (some name) ≡ some (split_name name)
    go [] q =
        let s = stops_escaped_none b'@' false name q in
        let u = up_to-all b'@' name q in
        let a : scan (some b'@') fuel false [] name ≡ some (ends_escaped false name, name, []) =
          first ∙ (rw (s, u, q)) in
        parse_whole fuel name (ends_escaped false name) a ∙ ap some (sym (split_whole name q))
    go (x ∷ realm) q =
        let s = stops_escaped_some b'@' false name x realm q in
        let a : scan (some b'@') fuel false [] name ≡ some (false, up_to b'@' name, x ∷ realm) =
          first ∙ (rw (s, q)) in
        let l = length-from b'@' name in
        let m : length (from b'@' name) ≡ suc (length realm) = ap length q in
        let k = scan-none fuel false [] realm (omega (arith, h, l, m)) in
        parse_parts fuel name (up_to b'@' name) realm realm x (ends_escaped false realm) a k
        ∙ ap some (sym (split_parts name realm x q))
