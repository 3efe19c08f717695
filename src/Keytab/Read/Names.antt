-- ===== src/Keytab/Read/Names.antt =====
-- Principal names in a keytab entry: `strtok_r` splits at the slashes what the reader joins by them.
use shishi.Base.{
  ℕ, suc, ◌≡◌, ◌≢◌, refl, sym, ◌∙◌, ap, List, [], ◌∷◌, ◌++◌, append_assoc, append-nil, Bytes, All,
  length, length-append, take, take-append_self, arith,
}
use shishi.Outcome.{ok}
use shishi.Keytab.{c_string}
use shishi.Keytab.Read.{principal_of}
use shishi.Keytab.Read.Scans.{IsString, IsComponent, slashed, c_string_lem}
use shishi.Keytab.Write.{tokens_from, name_components}

-- The components with a slash between each two.
abbrev pub join : List Bytes → Bytes
join [] = []
join (c ∷ []) = c
join (c ∷ d ∷ cs) = c ++ (b'/' ∷ join (d ∷ cs))

slashed-join : (c : Bytes) (cs : List Bytes) → slashed (c ∷ cs) ≡ join (c ∷ cs) ++ (b'/' ∷ [])
slashed-join c [] = refl
slashed-join c (d ∷ cs) =
    ap (λ x. c ++ (b'/' ∷ x)) (slashed-join d cs) ∙ sym (append_assoc c _ (b'/' ∷ []))

IsString-append : (s t : Bytes) → IsString s → IsString t → IsString (s ++ t)
IsString-append [] t h k = k
IsString-append (b ∷ s) t h k = (h.0, IsString-append s t h.1 k)

IsString-of : (c : Bytes) → All (λ b. (b ≢ 0) × (b ≢ b'/')) c → IsString c
IsString-of [] h = tt
IsString-of (b ∷ c) h = (h.0.0, IsString-of c h.1)

IsString-join : (cs : List Bytes) → All IsComponent cs → IsString (join cs)
IsString-join [] h = tt
IsString-join (c ∷ []) h = IsString-of c h.0.1
IsString-join (c ∷ d ∷ cs) h =
    IsString-append c _ (IsString-of c h.0.1)
      ((λ e. absurd (omega arith)), IsString-join (d ∷ cs) h.1)

principal_of-concat : (s : Bytes) (y : ℕ) → principal_of (s ++ (y ∷ [])) ≡ ok (c_string s)
unfolding principal_of
principal_of-concat [] y = refl
principal_of-concat (b ∷ s) y =
    ap (λ x. ok (c_string x))
      (ap (λ n. take n (b ∷ (s ++ (y ∷ [])))) {y = suc (length s)}
          (omega (arith, length-append s (y ∷ [])))
        ∙ take-append_self (suc (length s)) (b ∷ s) (y ∷ []) refl)

pub principal_of-slashed :
    (c : Bytes) (cs : List Bytes)
    → All IsComponent (c ∷ cs)
    → principal_of (slashed (c ∷ cs)) ≡ ok (join (c ∷ cs))
principal_of-slashed c cs h =
    ap principal_of (slashed-join c cs)
    ∙ principal_of-concat (join (c ∷ cs)) b'/'
    ∙ ap ok (c_string_lem (join (c ∷ cs)) (IsString-join (c ∷ cs) h))

tokens_from-append :
    (c token s : Bytes)
    → All (λ b. (b ≢ 0) × (b ≢ b'/')) c
    → tokens_from token (c ++ s) ≡ tokens_from (token ++ c) s
unfolding tokens_from
tokens_from-append [] token s h = ap (λ x. tokens_from x s) (sym (append-nil token))
tokens_from-append (b ∷ c) token s h =
    ground (arith, tokens_from-append c (token ++ b ∷ []) s h.1, append_assoc token (b ∷ []) c)

-- The tokens of a joined name are its components.
pub name_components-join : (cs : List Bytes) → All IsComponent cs → name_components (join cs) ≡ cs
unfolding tokens_from
name_components-join [] h = refl
name_components-join ([] ∷ cs) h = absurd (h.0.0 refl)
name_components-join ((b ∷ c) ∷ []) h =
    ap (tokens_from []) (sym (append-nil (b ∷ c))) ∙ tokens_from-append (b ∷ c) [] [] h.0.1
name_components-join ((b ∷ c) ∷ d ∷ cs) h =
    tokens_from-append (b ∷ c) [] (b'/' ∷ join (d ∷ cs)) h.0.1
    ∙ ap (◌∷◌ (b ∷ c)) (name_components-join (d ∷ cs) h.1)
