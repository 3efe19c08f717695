-- ===== src/Ccache/Pack/Whole.antt =====
-- Whole credentials and whole cache files as `lib/ccache.c` packs them.
use shishi.Base.{
  ℕ, ◌<◌, ◌≡◌, refl, sym, ◌∙◌, ap, [], ◌∷◌, ◌++◌, append-nil, Bytes, length, ltb, if◌then◌else◌,
  arith, true, false, Bool, le→ltb_false, lt→ltb,
}
use native.Mathlib.Decide.{dec_le}
use shishi.Outcome.{Outcome, ok, failed, minus_one, ◌>>◌}
use shishi.Wire.{be16, be32, le32}
use shishi.Ccache.{
  Credential, Cache, max_components, Buffer, Writer, put, put_uint8, put_uint16, put_uint32,
  put_uint32_swapped, put_data,
}
use shishi.Ccache.Pack.{
  pack_credential, packed, pack_into, ccache_pack_credential, pack_cache, version_or_default,
  ccache_pack,
}
use shishi.Ccache.Pack.Layout.{
  principal_bytes, principal_bytes-append, credential_body_bytes, credential_bytes, header_bytes,
  Emits, put_room, put_full, Emits-then, pack_principal-Emits,
}

-- Client and server each have less than 5 components.
abbrev pub HasRoomForNames : Credential → Type 0
HasRoomForNames c =
    (length c.client.components < max_components) × (length c.server.components < max_components)

-- One more `put` in front.
Emits-put : (bs : Bytes) (k : Writer) (cs : Bytes) → Emits k cs → Emits (put bs >> k) (bs ++ cs)
Emits-put bs k cs h = Emits-then (put bs) k bs cs (λ w. refl) h

Emits-last : (bs : Bytes) → Emits (put bs) (bs ++ [])
Emits-last bs w = ap (λ x. put x w) (sym (append-nil bs))

pack_credential-Emits :
    (c : Credential) → HasRoomForNames c → Emits (pack_credential c) (credential_bytes c [])
unfolding pack_credential put_uint8 put_uint16 put_uint32 put_uint32_swapped put_data
pack_credential-Emits c (hc, hs) w =
    Emits-then _ _ (principal_bytes c.client []) _ (pack_principal-Emits c.client hc)
      (Emits-then _ _ (principal_bytes c.server []) (credential_body_bytes c [])
        (pack_principal-Emits c.server hs)
        (Emits-put (be16 c.key.keytype []) _ _ (
          Emits-put (be16 c.key.etype []) _ _ (
            Emits-put (be16 (length c.key.keyvalue) []) _ _ (
              Emits-put c.key.keyvalue _ _ (
                Emits-put (be32 c.authtime []) _ _ (
                  Emits-put (be32 c.starttime []) _ _ (
                    Emits-put (be32 c.endtime []) _ _ (
                      Emits-put (be32 c.renew_till []) _ _ (
                        Emits-put (0 ∷ []) _ _ (
                          Emits-put (le32 c.tktflags []) _ _ (
                            Emits-put (be32 0 []) _ _ (
                              Emits-put (be32 0 []) _ _ (
                                Emits-put (be32 (length c.ticket) []) _ _ (
                                  Emits-put c.ticket _ _ (
                                    Emits-put (be32 (length c.second_ticket) []) _ _
                                      (Emits-last c.second_ticket)))))))))))))))))
      w
    ∙ ap (λ bs. put bs w)
        (principal_bytes-append c.client [] _
          ∙ ap (principal_bytes c.client) (principal_bytes-append c.server [] _))

pack_cache-Emits :
    (info : Cache)
    → length info.default_principal.components < max_components
    → Emits (pack_cache info) (header_bytes info [])
unfolding pack_cache put_uint16 put_data
pack_cache-Emits info h = Emits-put (be16 (version_or_default info.file_format_version) []) _ _ (
    Emits-put (be16 (length info.header) []) _ _
      (Emits-put info.header _ _ (pack_principal-Emits info.default_principal h)))

pack_into-Emits :
    (m : Writer) (bs : Bytes) (room : ℕ)
    → Emits m bs
    → pack_into m room ≡ (if ltb room (length bs) then failed minus_one else ok (bs, length bs))
unfolding pack_into packed
pack_into-Emits m bs room h = elim (dec_le (length bs) room) [
  | yes fits ↦
      rw (le→ltb_false room (length bs) fits)
        (ap (packed room) (h start ∙ put_room bs start fits) ∙ ap (λ n. ok (bs, n)) (omega arith))
  | no full ↦
      rw (lt→ltb room (length bs) (omega arith))
        (ap (packed room) (h start ∙ put_full bs start (omega arith)))
]
  where
    start : Buffer
    start = record { out = []; room = room }

-- For less than 5 components in each name, `ccache_pack_credential` fails exactly when the buffer
-- is shorter than the packed credential; else it stores exactly those bytes and returns their
-- number in `*len`.
pub ccache_pack_credential_lem :
    (c : Credential) (room : ℕ)
    → HasRoomForNames c
    → ccache_pack_credential c room ≡ (
        if ltb room (length (credential_bytes c []))
        then failed minus_one
        else ok (credential_bytes c [], length (credential_bytes c [])))
unfolding ccache_pack_credential
ccache_pack_credential_lem c room h = pack_into-Emits _ _ room (pack_credential-Emits c h)

-- Likewise for `ccache_pack`, which writes the header and the default principal.
pub ccache_pack_lem :
    (info : Cache) (room : ℕ)
    → length info.default_principal.components < max_components
    → ccache_pack info room ≡ (
        if ltb room (length (header_bytes info []))
        then failed minus_one
        else ok (header_bytes info [], length (header_bytes info [])))
unfolding ccache_pack
ccache_pack_lem info room h = pack_into-Emits _ _ room (pack_cache-Emits info h)

if-eq-ok :
    (b : Bool) (bs cs : Bytes) (m n : ℕ)
    → if◌then◌else◌ {A = Outcome (Bytes × ℕ)} b (failed minus_one) (ok (bs, m)) ≡ ok (cs, n)
    → (cs ≡ bs) × (n ≡ m)
if-eq-ok true bs cs m n e = cc
if-eq-ok false bs cs m n e = ground arith

pub ccache_pack_credential-eq-ok :
    (c : Credential) (room n : ℕ) (bs : Bytes)
    → HasRoomForNames c
    → ccache_pack_credential c room ≡ ok (bs, n)
    → (bs ≡ credential_bytes c []) × (n ≡ length (credential_bytes c []))
ccache_pack_credential-eq-ok c room n bs h e =
    if-eq-ok _ _ bs _ n (sym (ccache_pack_credential_lem c room h) ∙ e)

pub ccache_pack-eq-ok :
    (info : Cache) (room n : ℕ) (bs : Bytes)
    → length info.default_principal.components < max_components
    → ccache_pack info room ≡ ok (bs, n)
    → bs ≡ header_bytes info []
ccache_pack-eq-ok info room n bs h e =
    (if-eq-ok _ _ bs _ n (sym (ccache_pack_lem info room h) ∙ e)).0
