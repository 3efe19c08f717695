-- ===== src/Tkts/Import/Loop.antt =====
-- When the loop of shishi_tkts_add_ccache_mem of lib/tktccache.c ends.
use shishi.Base.{
  ℕ, zero, suc, ◌<◌, true, false, List, [], ◌∷◌, ◌++◌, Option, none, some, Bytes, length, drop,
  length-drop, ◌==◌, ◌≡◌, ◌≢◌, refl, ap, ◌∙◌, ◌⊎◌, inl, inr, arith, Bool-cases, Option-cases,
}
use shishi.Outcome.{Outcome, ok, failed, overrun, ccache_error}
use shishi.Outcome.Chain.{Outcome-cases}
use shishi.Tkt.{Tkt}
use shishi.Ccache.{Credential, Cache}
use shishi.Ccache.Parse.{ccache_parse, ccache_parse_credential}
use shishi.Ccache.Parse.Bounds.{ccache_parse_credential_bounds}
use shishi.Ccache.Parse.Shortens.{ccache_parse_shortens}
use shishi.Cipher.{cipher_keylen}
use shishi.Tkts.Import.{
  Importer, Imported, add_new, with_ticket, with_keylen, with_parsed, add_credentials, add_cache,
  tkts_add_ccache_mem,
}

module _ (x : Importer) where
  -- A credential that the loop passes over without moving on
  abbrev pub IsSkipped : Credential → Type 0
  IsSkipped c =
      (cipher_keylen c.key.keytype ≢ length c.key.keyvalue) ⊎ (x.der2asn1_ticket c.ticket ≡ none)

  skipped_again :
      (again : Bytes → List Tkt → Option Imported) (bytes : Bytes) (c : Credential) (n : ℕ)
      (tkts : List Tkt)
      → IsSkipped c
      → with_parsed x again bytes tkts (ok (c, n)) ≡ again bytes tkts
  unfolding with_parsed
  skipped_again again bytes c n tkts (inl h) =
      let e : (cipher_keylen c.key.keytype == length c.key.keyvalue) ≡ false = ground arith in
      ap (with_keylen x again bytes c n tkts) e
  skipped_again again bytes c n tkts (inr h) =
      elim (Bool-cases (cipher_keylen c.key.keytype == length c.key.keyvalue)) [
        | inl e ↦
            ap (with_keylen x again bytes c n tkts) e ∙ ap (with_ticket x again bytes c n tkts) h
        | inr e ↦ ap (with_keylen x again bytes c n tkts) e
      ]

  skipped_never :
      (fuel : ℕ) (bytes : Bytes) (tkts : List Tkt) (c : Credential) (n : ℕ)
      → ccache_parse_credential bytes ≡ ok (c, n)
      → IsSkipped c
      → add_credentials x fuel bytes tkts ≡ none
  unfolding add_credentials
  skipped_never zero bytes tkts c n e h = refl
  skipped_never (suc fuel) [] tkts c n e h =
      absurd (omega (arith, ccache_parse_credential_bounds [] c n e))
  skipped_never (suc fuel) (b ∷ bytes) tkts c n e h =
      ap (with_parsed x (λ left set. add_credentials x fuel left set) (b ∷ bytes) tkts) e
      ∙ (skipped_again (λ left set. add_credentials x fuel left set) (b ∷ bytes) c n tkts h
          ∙ skipped_never fuel (b ∷ bytes) tkts c n e h)

  -- A credential of which a ticket is made
  module _ (again : Bytes → List Tkt → Option Imported) (bytes : Bytes) (c : Credential) (n : ℕ)
      (tkts : List Tkt) (ticket : x.Ticket)
      (fits : cipher_keylen c.key.keytype ≡ length c.key.keyvalue)
      (decoded : x.der2asn1_ticket c.ticket ≡ some ticket) where
    made :
        with_parsed x again bytes tkts (ok (c, n))
        ≡ add_new x again bytes n tkts (x.new_tkt c ticket)
    unfolding with_parsed
    made =
        ap (with_keylen x again bytes c n tkts) (
          let e : (cipher_keylen c.key.keytype == length c.key.keyvalue) ≡ true = ground arith in e)
        ∙ ap (with_ticket x again bytes c n tkts) decoded

    moved :
        (tkt : Tkt)
        → x.new_tkt c ticket ≡ ok tkt
        → with_parsed x again bytes tkts (ok (c, n)) ≡ again (drop n bytes) (tkts ++ tkt ∷ [])
    unfolding add_new
    moved tkt e = made ∙ ap (add_new x again bytes n tkts) e

  -- A turn over bytes that are left, by what is parsed
  turn :
      (fuel : ℕ) (b : ℕ) (bytes : Bytes) (tkts : List Tkt) (r : Outcome (Credential × ℕ))
      → ccache_parse_credential (b ∷ bytes) ≡ r
      → add_credentials x (suc fuel) (b ∷ bytes) tkts
        ≡ with_parsed x (λ left set. add_credentials x fuel left set) (b ∷ bytes) tkts r
  unfolding add_credentials
  turn fuel b bytes tkts r e =
      ap (with_parsed x (λ left set. add_credentials x fuel left set) (b ∷ bytes) tkts) e

  -- A turn over a credential of which a ticket is made
  pub moves_on :
      (fuel : ℕ) (bytes : Bytes) (tkts : List Tkt) (c : Credential) (n : ℕ) (ticket : x.Ticket)
      (tkt : Tkt)
      → ccache_parse_credential bytes ≡ ok (c, n)
      → cipher_keylen c.key.keytype ≡ length c.key.keyvalue
      → x.der2asn1_ticket c.ticket ≡ some ticket
      → x.new_tkt c ticket ≡ ok tkt
      → add_credentials x (suc fuel) bytes tkts
        ≡ add_credentials x fuel (drop n bytes) (tkts ++ tkt ∷ [])
  moves_on fuel [] tkts c n ticket tkt parsed fits decoded e =
      absurd (omega (arith, ccache_parse_credential_bounds [] c n parsed))
  moves_on fuel (b ∷ bytes) tkts c n ticket tkt parsed fits decoded e =
      turn fuel b bytes tkts (ok (c, n)) parsed
      ∙ moved (λ left set. add_credentials x fuel left set) (b ∷ bytes) c n tkts ticket fits decoded
          tkt e

  -- Credentials of which tickets are made, and behind them one that is skipped
  pub data ReachesSkipped : Bytes → Type 0 where
    here :
        (bytes : Bytes) (c : Credential) (n : ℕ)
        → ccache_parse_credential bytes ≡ ok (c, n)
        → IsSkipped c
        → ReachesSkipped bytes
    later :
        (bytes : Bytes) (c : Credential) (n : ℕ) (ticket : x.Ticket) (tkt : Tkt)
        → ccache_parse_credential bytes ≡ ok (c, n)
        → cipher_keylen c.key.keytype ≡ length c.key.keyvalue
        → x.der2asn1_ticket c.ticket ≡ some ticket
        → x.new_tkt c ticket ≡ ok tkt
        → ReachesSkipped (drop n bytes)
        → ReachesSkipped bytes

  reached_never :
      {bytes : Bytes}
      → ReachesSkipped bytes
      → (fuel : ℕ) (tkts : List Tkt) → add_credentials x fuel bytes tkts ≡ none
  unfolding add_credentials
  reached_never (here bytes c n parsed skipped) fuel tkts =
      skipped_never fuel bytes tkts c n parsed skipped
  reached_never (later bytes c n ticket tkt parsed fits decoded e more) zero tkts = refl
  reached_never (later bytes c n ticket tkt parsed fits decoded e more) (suc fuel) tkts =
      moves_on fuel bytes tkts c n ticket tkt parsed fits decoded e
      ∙ reached_never more fuel (tkts ++ tkt ∷ [])

  -- An end with the fuel given, or a credential that is skipped
  abbrev Decided : ℕ → Bytes → List Tkt → Type 0
  Decided fuel bytes tkts =
      ((r : Imported) × (add_credentials x fuel bytes tkts ≡ some r)) ⊎ ReachesSkipped bytes

  module _ (fuel b : ℕ) (bytes : Bytes) (tkts : List Tkt) (c : Credential) (n : ℕ)
      (parsed : ccache_parse_credential (b ∷ bytes) ≡ ok (c, n)) where
    Decided-skipped : IsSkipped c → Decided (suc fuel) (b ∷ bytes) tkts
    Decided-skipped h = inr (here (b ∷ bytes) c n parsed h)

    module _ (ticket : x.Ticket) (fits : cipher_keylen c.key.keytype ≡ length c.key.keyvalue)
        (decoded : x.der2asn1_ticket c.ticket ≡ some ticket) where
      Decided-stopped :
          (r : Outcome Tkt) (s : Imported)
          → x.new_tkt c ticket ≡ r
          → add_new x (λ left set. add_credentials x fuel left set) (b ∷ bytes) n tkts r ≡ some s
          → Decided (suc fuel) (b ∷ bytes) tkts
      Decided-stopped r s e p = inl (
        s,
        turn fuel b bytes tkts (ok (c, n)) parsed
            ∙ (made (λ left set. add_credentials x fuel left set) (b ∷ bytes) c n tkts ticket fits
                  decoded
                ∙ (ap (add_new x (λ left set. add_credentials x fuel left set) (b ∷ bytes) n tkts) e
                    ∙ p)),
      )

      Decided-moved :
          (tkt : Tkt)
          → x.new_tkt c ticket ≡ ok tkt
          → Decided fuel (drop n (b ∷ bytes)) (tkts ++ tkt ∷ [])
          → Decided (suc fuel) (b ∷ bytes) tkts
      Decided-moved tkt e (inl (r, p)) =
          inl (r, moves_on fuel (b ∷ bytes) tkts c n ticket tkt parsed fits decoded e ∙ p)
      Decided-moved tkt e (inr more) =
          inr (later (b ∷ bytes) c n ticket tkt parsed fits decoded e more)

  add_credentials-Decided :
      (fuel : ℕ) (bytes : Bytes) (tkts : List Tkt) → length bytes < fuel → Decided fuel bytes tkts
  unfolding add_credentials
  add_credentials-Decided zero bytes tkts h = absurd (omega arith)
  add_credentials-Decided (suc fuel) [] tkts h = inl ((ok tt, tkts), refl)
  add_credentials-Decided (suc fuel) (b ∷ bytes) tkts h =
      elim (Outcome-cases (ccache_parse_credential (b ∷ bytes))) [
        | inl ((c, n), e) ↦
            elim (Bool-cases (cipher_keylen c.key.keytype == length c.key.keyvalue)) [
              | inl k ↦ elim (Option-cases (x.der2asn1_ticket c.ticket)) [
                | inl none_decoded ↦ Decided-skipped fuel b bytes tkts c n e (inr none_decoded)
                | inr (ticket, decoded) ↦ elim (Outcome-cases (x.new_tkt c ticket)) [
                  | inl (tkt, m) ↦
                      Decided-moved fuel b bytes tkts c n e ticket (ground arith) decoded tkt m (
                        add_credentials-Decided fuel (drop n (b ∷ bytes)) (tkts ++ tkt ∷ []) (
                          omega (
                            arith,
                            length-drop n (b ∷ bytes),
                            ccache_parse_credential_bounds (b ∷ bytes) c n e,
                          )))
                  | inr (inl (rc, m)) ↦
                      Decided-stopped fuel b bytes tkts c n e ticket (ground arith) decoded
                        (failed rc) (failed rc, tkts) m (unfold add_new in refl)
                  | inr (inr m) ↦
                      Decided-stopped fuel b bytes tkts c n e ticket (ground arith) decoded overrun
                        (overrun, tkts) m (unfold add_new in refl)
                ]
              ]
              | inr k ↦ Decided-skipped fuel b bytes tkts c n e (inl (ground arith))
            ]
        | inr (inl (rc, e)) ↦
            inl ((failed ccache_error, tkts), turn fuel b bytes tkts (failed rc) e)
        | inr (inr e) ↦ inl ((overrun, tkts), turn fuel b bytes tkts overrun e)
      ]

  -- A cache whose credentials come to one that is skipped
  pub record IsStuck (bytes : Bytes) : Type 0 where
    pub cache : Cache
    pub parsed : ccache_parse bytes ≡ ok cache
    pub reached : ReachesSkipped cache.credentials

module _ (x : Importer) where
  -- With more fuel than bytes the import gives a result, unless it comes, behind credentials of
  -- which it makes tickets, to one whose key has another length than its type's or whose ticket is
  -- not decoded; then there is no result whatever the fuel is.
  pub tkts_add_ccache_mem-ends :
      (bytes : Bytes) (tkts : List Tkt) (fuel : ℕ)
      → length bytes < fuel
      → (((r : Imported) × (tkts_add_ccache_mem x fuel bytes tkts ≡ some r)) ⊎ IsStuck x bytes)
        × (IsStuck x bytes → (f : ℕ) → tkts_add_ccache_mem x f bytes tkts ≡ none)
  unfolding tkts_add_ccache_mem
  tkts_add_ccache_mem-ends bytes tkts fuel h = (
    elim (Outcome-cases (ccache_parse bytes)) [
      | inl (cache, e) ↦ by_loop cache e (
          add_credentials-Decided x fuel cache.credentials tkts
            (omega (arith, ccache_parse_shortens bytes cache e)))
      | inr (inl (rc, e)) ↦ inl ((failed ccache_error, tkts), ap (add_cache x fuel tkts) e)
      | inr (inr e) ↦ inl ((overrun, tkts), ap (add_cache x fuel tkts) e)
    ],
    never,
  )
    where
      by_loop :
          (cache : Cache)
          → ccache_parse bytes ≡ ok cache
          → Decided x fuel cache.credentials tkts
          → ((r : Imported) × (tkts_add_ccache_mem x fuel bytes tkts ≡ some r)) ⊎ IsStuck x bytes
      by_loop cache e (inl (r, p)) = inl (r, ap (add_cache x fuel tkts) e ∙ p)
      by_loop cache e (inr more) = inr (record { cache = cache; parsed = e; reached = more })

      never : IsStuck x bytes → (f : ℕ) → tkts_add_ccache_mem x f bytes tkts ≡ none
      never s f = ap (add_cache x f tkts) s.parsed ∙ reached_never x s.reached f tkts
