-- ===== src/Ccache/Pack/Layout.antt =====
-- The bytes of a packed principal, credential and cache header, each in front of what follows.
use shishi.Base.{
  ◌-◌, ◌≤◌, ◌<◌, ◌≡◌, refl, sym, ◌∙◌, ap, List, [], ◌∷◌, ◌++◌, append-nil, append_assoc, Bytes,
  length, length-append, leb, if◌then◌else◌, arith, le→ltb_false, lt→ltb, lt→leb_false, le→leb,
}
use native.Mathlib.Decide.{dec_le}
use mathlib.Core.Path.{fun_ext}
use shishi.Outcome.{bind_ok, bind_failed, bind_cong, ok, failed, minus_one, pure, ◌>>◌}
use shishi.Wire.{be16, be32, le32}
use shishi.Ccache.{
  Principal, Credential, Cache, max_components, Buffer, Writer, put, put_uint32, put_data,
}
use shishi.Ccache.Pack.{pack_components, pack_principal, version_or_default}

abbrev pub components_bytes : List Bytes → Bytes → Bytes
components_bytes [] rest = rest
components_bytes (c ∷ cs) rest = be32 (length c) (c ++ components_bytes cs rest)

abbrev pub principal_bytes : Principal → Bytes → Bytes
principal_bytes p rest = be32 p.name_type (
    be32 (length p.components)
      (be32 (length p.realm) (p.realm ++ components_bytes p.components rest)))

abbrev pub credential_body_bytes : Credential → Bytes → Bytes
credential_body_bytes c rest = be16 c.key.keytype (
    be16 c.key.etype (
      be16 (length c.key.keyvalue) (
        c.key.keyvalue
        ++ be32 c.authtime (
            be32 c.starttime (
              be32 c.endtime (
                be32 c.renew_till (
                  0
                  ∷ le32 c.tktflags (
                      be32 0 (
                        be32 0 (
                          be32 (length c.ticket) (
                            c.ticket
                            ++ be32 (length c.second_ticket) (c.second_ticket ++ rest))))))))))))

abbrev pub credential_bytes : Credential → Bytes → Bytes
credential_bytes c rest =
    principal_bytes c.client (principal_bytes c.server (credential_body_bytes c rest))

abbrev pub header_bytes : Cache → Bytes → Bytes
header_bytes info rest =
    be16 (version_or_default info.file_format_version)
      (be16 (length info.header) (info.header ++ principal_bytes info.default_principal rest))

-- The writer acts as one `put` of these bytes: all or nothing.
abbrev pub Emits : Writer → Bytes → Type 0
Emits m bs = (w : Buffer) → m w ≡ put bs w

module _ (bs : Bytes) (w : Buffer) where
  pub put_room :
      length bs ≤ w.room
      → put bs w ≡ ok (tt, record w { out = w.out ++ bs; room = w.room - length bs })
  unfolding put
  put_room h = rw (le→ltb_false w.room (length bs) h)

  pub put_full : w.room < length bs → put bs w ≡ failed minus_one
  unfolding put
  put_full h = rw (lt→ltb w.room (length bs) h)

put-append : (bs cs : Bytes) (w : Buffer) → (put bs >> put cs) w ≡ put (bs ++ cs) w
put-append bs cs w = elim (dec_le (length bs) w.room) [
  | no h ↦
      bind_failed (put bs) (λ _. put cs) (put_full bs w (omega arith))
      ∙ sym (put_full (bs ++ cs) w (omega (arith, length-append bs cs)))
  | yes h ↦
      bind_ok (put bs) (λ _. put cs) (put_room bs w h) ∙ later (dec_le (length (bs ++ cs)) w.room) h
]
  where
    w' : Buffer
    w' = record w { out = w.out ++ bs; room = w.room - length bs }

    later : Dec (length (bs ++ cs) ≤ w.room) → length bs ≤ w.room → put cs w' ≡ put (bs ++ cs) w
    later (yes k) h =
        put_room cs w' (omega (arith, length-append bs cs))
        ∙ ap (λ b. ok (tt, b)) (ground (arith, length-append bs cs, append_assoc w.out bs cs))
        ∙ sym (put_room (bs ++ cs) w k)
    later (no k) h =
        put_full cs w' (omega (arith, length-append bs cs))
        ∙ sym (put_full (bs ++ cs) w (omega arith))

pub Emits-then :
    (m k : Writer) (bs cs : Bytes) → Emits m bs → Emits k cs → Emits (m >> k) (bs ++ cs)
Emits-then m k bs cs hm hk w = bind_cong m (λ _. k) (put bs) (hm w) ∙ second ∙ put-append bs cs w
  where
    second : (put bs >> k) w ≡ (put bs >> put cs) w
    second = ap (λ (x : Writer). (put bs >> x) w) (fun_ext hk)

Emits-pure : Emits (pure tt) []
unfolding put
Emits-pure w = ground (arith, append-nil w.out)

pack_components-Emits : (cs : List Bytes) → Emits (pack_components cs) (components_bytes cs [])
unfolding pack_components put_uint32 put_data
pack_components-Emits [] = Emits-pure
pack_components-Emits (c ∷ cs) =
    Emits-then _ _ (be32 (length c) []) _ (λ w. refl)
      (Emits-then _ _ c _ (λ w. refl) (pack_components-Emits cs))

-- A principal with less than 5 components is packed as one block of bytes.
pub pack_principal-Emits :
    (p : Principal)
    → length p.components < max_components
    → Emits (pack_principal p) (principal_bytes p [])
unfolding pack_principal put_uint32 put_data
pack_principal-Emits p h =
    Emits-then _ _ (be32 p.name_type []) _ (λ w. refl)
      (Emits-then _ _ (be32 (length p.components) []) _ (λ w. refl)
        (λ w. rw (lt→leb_false max_components (length p.components) h) (
          Emits-then _ _ (be32 (length p.realm) []) _ (λ w. refl)
            (Emits-then _ _ p.realm _ (λ w. refl) (pack_components-Emits p.components)) w)))

components_bytes-append :
    (cs : List Bytes) (a b : Bytes) → components_bytes cs a ++ b ≡ components_bytes cs (a ++ b)
components_bytes-append [] a b = refl
components_bytes-append (c ∷ cs) a b =
    ap (be32 (length c)) (append_assoc c _ b ∙ ap (◌++◌ c) (components_bytes-append cs a b))

pub principal_bytes-append :
    (p : Principal) (a b : Bytes) → principal_bytes p a ++ b ≡ principal_bytes p (a ++ b)
principal_bytes-append p a b =
    ap (λ x. be32 p.name_type (be32 (length p.components) (be32 (length p.realm) x)))
      (append_assoc p.realm _ b ∙ ap (◌++◌ p.realm) (components_bytes-append p.components a b))

put-then_failed :
    (bs : Bytes) (k : Writer)
    → ((w : Buffer) → k w ≡ failed minus_one)
    → (w : Buffer) → (put bs >> k) w ≡ failed minus_one
put-then_failed bs k h w = elim (dec_le (length bs) w.room) [
  | yes fits ↦ bind_ok (put bs) (λ _. k) (put_room bs w fits) ∙ h _
  | no full ↦ bind_failed (put bs) (λ _. k) (put_full bs w (omega arith))
]

pack_principal_many :
    (p : Principal)
    → max_components ≤ length p.components
    → (w : Buffer) → pack_principal p w ≡ failed minus_one
unfolding pack_principal put_uint32
pack_principal_many p h = put-then_failed (be32 p.name_type []) _ (
    put-then_failed (be32 (length p.components) []) _
      (λ w. rw (le→leb max_components (length p.components) h)))

-- `pack_principal` fails on every buffer for 5 components or more; for fewer it fails exactly
-- when the room is less than the packed length, and else stores exactly the packed bytes.
pub pack_principal_lem :
    (p : Principal) (w : Buffer)
    → pack_principal p w ≡ (
        if leb max_components (length p.components)
        then failed minus_one
        else put (principal_bytes p []) w)
pack_principal_lem p w = elim (dec_le max_components (length p.components)) [
  | yes h ↦ rw (le→leb max_components (length p.components) h) (pack_principal_many p h w)
  | no h ↦
      rw (lt→leb_false max_components (length p.components) (omega arith))
        (pack_principal-Emits p (omega arith) w)
]
