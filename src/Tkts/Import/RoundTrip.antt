-- ===== src/Tkts/Import/RoundTrip.antt =====
-- A cache of packed credentials is imported by shishi_tkts_add_ccache_mem of lib/tktccache.c.
use shishi.Base.{
  ℕ, suc, List, [], ◌∷◌, ◌++◌, some, Bytes, length, All, append-nil, append_assoc, ◌≡◌, sym, ap,
  ◌∙◌,
}
use shishi.Outcome.{ok}
use shishi.Tkt.{Tkt}
use shishi.Ccache.{Credential, Cache}
use shishi.Ccache.Pack.{version_or_default, ccache_pack}
use shishi.Ccache.Pack.Layout.{credential_bytes}
use shishi.Ccache.Parse.RoundTrip.{IsStorable, IsPackable, Terminates}
use shishi.Ccache.Parse.WholeRoundTrip.{ccache_parse-pack, ccache_parse_credential_taken}
use shishi.Wire.{IsPlain16}
use shishi.Cipher.{cipher_keylen}
use shishi.Tkts.Import.{Importer, add_credentials, add_cache, tkts_add_ccache_mem}
use shishi.Tkts.Import.Loop.{moves_on}

-- The credentials' bytes one behind the other
unfoldable pub credentials_bytes : List Credential → Bytes
credentials_bytes [] = []
credentials_bytes (c ∷ cs) = credential_bytes c (credentials_bytes cs)

abbrev pub credentials_of : List (Credential × Tkt) → List Credential
credentials_of [] = []
credentials_of ((c, t) ∷ ps) = c ∷ credentials_of ps

abbrev pub tickets_of : List (Credential × Tkt) → List Tkt
tickets_of [] = []
tickets_of ((c, t) ∷ ps) = t ∷ tickets_of ps

-- What a cache reads back of a credential
abbrev pub read_back : Credential → Credential
read_back c = record c { is_skey = 0 }

module _ (x : Importer) where
  -- A credential whose key has its type's length, and of which the ticket is made
  pub record IsImportable (c : Credential) (t : Tkt) : Type 0 where
    pub storable : IsStorable c
    pub keylen : cipher_keylen c.key.keytype ≡ length c.key.keyvalue
    pub ticket : x.Ticket
    pub decoded : x.der2asn1_ticket c.ticket ≡ some ticket
    pub made : x.new_tkt (read_back c) ticket ≡ ok t

module _ (x : Importer) where
  add_credentials-packed :
      (ps : List (Credential × Tkt)) (tkts : List Tkt)
      → All (λ p. IsImportable x p.0 p.1) ps
      → add_credentials x (suc (length ps)) (credentials_bytes (credentials_of ps)) tkts
        ≡ some (ok tt, tkts ++ tickets_of ps)
  unfolding credentials_bytes add_credentials
  add_credentials-packed [] tkts h = ap (λ l. some (ok tt, l)) (sym (append-nil tkts))
  add_credentials-packed ((c, t) ∷ ps) tkts (i, is) =
      let rest = credentials_bytes (credentials_of ps) in
      let (n, parsed, left) = ccache_parse_credential_taken c rest i.storable in
      moves_on x (suc (length ps)) (credential_bytes c rest) tkts (read_back c) n i.ticket t parsed
        i.keylen i.decoded i.made
      ∙ (ap (λ bytes. add_credentials x (suc (length ps)) bytes (tkts ++ t ∷ [])) left
          ∙ (add_credentials-packed ps (tkts ++ t ∷ []) is
              ∙ ap (λ l. some (ok tt, l)) (append_assoc tkts (t ∷ []) (tickets_of ps))))

  -- A cache header that `ccache_pack` has packed, with packed credentials behind it, is imported
  -- by `shishi_tkts_add_ccache_mem`: their tickets are added to the set, each once and in their
  -- order. The conditions: each credential is storable, has a key of its type's length and a
  -- ticket that is decoded, and its new ticket is made; the version and the header's length fit 16
  -- bits and survive the reading through signed characters, which they do with a low byte below
  -- 0x80 or a high byte of 0xFF; the principal has less than 5 components, each shorter than 2^24
  -- bytes, and its name type and its realm's length fit 32 bits; and a zero byte follows the
  -- header, or nothing where the principal has components.
  pub tkts_add_ccache_mem-packed :
      (info : Cache) (room n : ℕ) (packed_bytes : Bytes) (ps : List (Credential × Tkt))
      (tkts : List Tkt)
      → IsPackable info.default_principal
      → IsPlain16 (version_or_default info.file_format_version)
      → IsPlain16 (length info.header)
      → Terminates info.default_principal.components (credentials_bytes (credentials_of ps))
      → ccache_pack info room ≡ ok (packed_bytes, n)
      → All (λ p. IsImportable x p.0 p.1) ps
      → tkts_add_ccache_mem x
          (suc (length ps))
          (packed_bytes ++ credentials_bytes (credentials_of ps))
          tkts
        ≡ some (ok tt, tkts ++ tickets_of ps)
  unfolding tkts_add_ccache_mem add_cache
  tkts_add_ccache_mem-packed info room n packed_bytes ps tkts p v l t e h =
      let rest = credentials_bytes (credentials_of ps) in
      ap (add_cache x (suc (length ps)) tkts)
        (ccache_parse-pack info room n packed_bytes rest p v l t e)
      ∙ add_credentials-packed ps tkts h
