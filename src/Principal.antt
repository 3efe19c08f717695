-- ===== src/Principal.antt =====
-- Principal names: shishi_parse_name, shishi_principal_name, shishi_principal_name_realm and
-- shishi_derive_default_salt of lib/principal.c. A string is the list of its bytes without the
-- terminating zero, and `none` is NULL. The components of a name are the list that
-- shishi_asn1_read gives one by one.
pub mod ParseName
pub mod RoundTrip
pub mod Salt
use shishi.Base.{
  ℕ, zero, suc, Bool, true, false, List, [], ◌∷◌, ◌++◌, Option, none, some, Bytes, ◌==◌, ◌||◌,
  if◌then◌else◌,
}
use shishi.Outcome.{Outcome, ok, failed, overrun, invalid_principal_name}

-- `while (*p && (*p != stop || escaped))`, with the bytes that `p` has passed and those from `p` on;
-- the pair is where `p` ends. While `escaped` is set a turn clears it and leaves `p` where it is.
-- `stop` is `some b'@'` for the principal and `none` for the realm. `none` is that the fuel ran out.
unfoldable pub scan : Option ℕ → ℕ → Bool → Bytes → Bytes → Option (Bool × Bytes × Bytes)
scan stop zero escaped passed rest = none
scan stop (suc fuel) escaped passed [] = some (escaped, passed, [])
scan stop (suc fuel) true passed (c ∷ cs) = scan stop fuel false passed (c ∷ cs)
scan none (suc fuel) false passed (c ∷ cs) = scan none fuel (c == b'\\') (passed ++ c ∷ []) cs
scan (some at) (suc fuel) false passed (c ∷ cs) = elim (c == at) [
  | true ↦ some (false, passed, c ∷ cs)
  | false ↦ scan (some at) fuel (c == b'\\') (passed ++ c ∷ []) cs
]

-- The test of `*p` on, with the principal copied: `p` is after the '@' from then on.
unfoldable pub parsed_realm : ℕ → Bytes → Bytes → Option (Outcome (Bytes × Option Bytes))
unfolding scan
parsed_realm fuel principal [] = some (ok (principal, none))
parsed_realm fuel principal (at ∷ realm) = elim (scan none fuel false [] realm) [
  | none ↦ none
  | some (true, _, _) ↦ some (failed invalid_principal_name)
  | some (false, _, _) ↦ some (ok (principal, some realm))
]

unfoldable pub parse_name : ℕ → Option Bytes → Option (Outcome (Bytes × Option Bytes))
unfolding scan parsed_realm
parse_name fuel none = some (failed invalid_principal_name)
parse_name fuel (some name) = elim (scan (some b'@') fuel false [] name) [
  | none ↦ none
  | some (true, _, _) ↦ some (failed invalid_principal_name)
  | some (false, principal, rest) ↦ parsed_realm fuel principal rest
]

-- `tmp[j] == '@' || tmp[j] == '/' || tmp[j] == '\\'`
abbrev pub is_special : ℕ → Bool
is_special c = c == b'@' || (c == b'/' || c == b'\\')

unfoldable pub escape : Bytes → Bytes
escape [] = []
escape (c ∷ cs) = if is_special c then b'\\' ∷ c ∷ escape cs else c ∷ escape cs

-- the loop over the components: a slash after each but the last
unfoldable pub principal_name : List Bytes → Bytes
unfolding escape
principal_name [] = []
principal_name (c ∷ []) = escape c
principal_name (c ∷ d ∷ ds) = escape c ++ b'/' ∷ principal_name (d ∷ ds)

-- The realm is `realmfield` or what is read at it; `none` is that both arguments are NULL.
unfoldable pub principal_name_realm : List Bytes → Option Bytes → Bytes
unfolding principal_name
principal_name_realm components none = principal_name components
principal_name_realm components (some realm) = principal_name components ++ b'@' ∷ realm

-- `while ((p = strchr (principal, '/'))) memmove (p, p + 1, strlen (p));`
unfoldable pub without_slashes : Bytes → Bytes
without_slashes [] = []
without_slashes (c ∷ cs) = if c == b'/' then without_slashes cs else c ∷ without_slashes cs

unfoldable pub default_salt : Option (Outcome (Bytes × Option Bytes)) → Option (Outcome Bytes)
unfolding without_slashes
default_salt none = none
default_salt (some overrun) = some overrun
default_salt (some (failed rc)) = some (failed rc)
default_salt (some (ok (principal, none))) = some (failed invalid_principal_name)
default_salt (some (ok (principal, some realm))) = some (ok (realm ++ without_slashes principal))

unfoldable pub derive_default_salt : ℕ → Option Bytes → Option (Outcome Bytes)
unfolding parse_name default_salt
derive_default_salt fuel name = default_salt (parse_name fuel name)
