-- ===== src/Ccache/Parse/Shortens.antt =====
-- What ccache_parse of lib/ccache.c leaves of its input.
use shishi.Base.{ℕ, ◌≤◌, ◌≡◌, refl, ap, Bytes, length, length-append, arith}
use shishi.Outcome.{Outcome, ok, failed, overrun}
use shishi.Ccache.{Principal, Cache, get_uint16, get_data}
use shishi.Ccache.Parse.{parse_principal, parse_header, parsed_cache, ccache_parse}
use shishi.Ccache.Parse.Bounds.{
  Reads, Reads-bind, Reads-pure, Reads-weaken, Reads-get_uint16, Reads-get_data,
  Reads-parse_principal,
}

Reads-parse_header : Reads parse_header 0
unfolding parse_header
Reads-parse_header =
    Reads-bind get_uint16 _ 0 0 (Reads-weaken get_uint16 2 0 (omega arith) Reads-get_uint16) (λ v.
      Reads-bind get_uint16 _ 0 0 (Reads-weaken get_uint16 2 0 (omega arith) Reads-get_uint16) (λ l.
        Reads-bind (get_data l) _ 0 0 (Reads-get_data l) (λ h.
          Reads-bind parse_principal _ 0 0
            (Reads-weaken parse_principal 12 0 (omega arith) Reads-parse_principal)
            (λ d. Reads-pure _))))

-- The credentials of a cache that is parsed are no longer than the input.
pub ccache_parse_shortens :
    (s : Bytes) (cache : Cache) → ccache_parse s ≡ ok cache → length cache.credentials ≤ length s
unfolding ccache_parse parsed_cache
ccache_parse_shortens s cache = go (parse_header s) refl
  where
    go :
        (r : Outcome ((ℕ × Bytes × Principal) × Bytes))
        → parse_header s ≡ r
        → parsed_cache r ≡ ok cache
        → length cache.credentials ≤ length s
    go (failed rc) e p = cc
    go overrun e p = cc
    go (ok (h, t)) e p =
        let (front, split, long) = Reads-parse_header.took s h t e in
        let rest : cache.credentials ≡ t = ground arith in
        omega (arith, ap (length {0}) split, ap (length {0}) rest, length-append front t)
