-- ===== src/Tests/Names.antt =====
-- Principal names: the tests of Principal.
use shishi.Base.{[], ◌∷◌, Bytes, some, false, ◌≡◌, refl, arith, List}
use shishi.Outcome.{ok}
use shishi.Principal.{parse_name, principal_name, principal_name_realm, escape}
use shishi.Principal.ParseName.{split_name, parse_name_lem, from, up_to, ends_escaped}
use shishi.Principal.RoundTrip.{parse_name-principal_name_realm, decode, decode-principal_name}

-- h and a
abbrev host_a : List Bytes
host_a = (b'h' ∷ []) ∷ (b'a' ∷ []) ∷ []

-- a\@b@R
abbrev escaped_at : Bytes
escaped_at = b'a' ∷ b'\\' ∷ b'@' ∷ b'b' ∷ b'@' ∷ b'R' ∷ []

parse_name_lem_example :
    parse_name 13 (some escaped_at) ≡ some (ok (b'a' ∷ b'\\' ∷ [], some (b'b' ∷ b'@' ∷ b'R' ∷ [])))
unfolding split_name from up_to ends_escaped
parse_name_lem_example = parse_name_lem 13 escaped_at (omega arith)

parse_name-principal_name_realm_example :
    parse_name 11 (some (principal_name_realm host_a (some (b'R' ∷ []))))
    ≡ some (ok (principal_name host_a, some (b'R' ∷ [])))
unfolding from ends_escaped principal_name_realm principal_name escape
parse_name-principal_name_realm_example =
    parse_name-principal_name_realm 11 host_a (b'R' ∷ []) (refl, (refl, tt)) refl (omega arith)

decode-principal_name_example :
    decode false [] (principal_name (escaped_at ∷ (b'/' ∷ []) ∷ [])) ≡ escaped_at ∷ (b'/' ∷ []) ∷ []
decode-principal_name_example = decode-principal_name escaped_at ((b'/' ∷ []) ∷ [])
