-- ===== src/Hint/Match.antt =====
-- What a ticket has that a search finds: shishi_tkt_match_p and set_tgtflags_based_on_hint of
-- lib/tkts.c.
use shishi.Base.{
  ℕ, Bool, true, false, ◌≡◌, refl, ◌↔◌, ◌⊎◌, ◌&&◌, if◌then◌else◌, Option, none, some, Bytes, arith,
}
use shishi.Tkt.{
  Tkt, forwardable, forwarded, proxiable, proxy, renewable, has_bit, forwardable_p, forwarded_p,
  proxiable_p, proxy_p, renewable_p, client_p, server_p, keytype_p, valid_at_time_p,
}
use shishi.Hint.{
  Hint, accept_expired, kdcoptions_renew, asked, asked_flag, asked_valid, asked_etype, match_p,
  set_bit_if, tgt_tktflags, set_tgtflags_based_on_hint,
}

pub and_iff : (a b : Bool) → (a && b ≡ true) ↔ ((a ≡ true) × (b ≡ true))
and_iff true b = ((λ h. (refl, h)), (λ h. h.1))
and_iff false b = ((λ h. cc), (λ h. cc))

asked_iff :
    (test : Tkt → Bytes → Bool) (tkt : Tkt) (text : Option Bytes)
    → (asked test tkt text ≡ true) ↔ ((s : Bytes) → text ≡ some s → test tkt s ≡ true)
asked_iff test tkt none = ((λ _ s e. cc), (λ _. refl))
asked_iff test tkt (some t) = ((λ h s e. cc), (λ h. h t refl))

asked_flag_iff :
    (mask flags : ℕ) (held : Bool)
    → (asked_flag mask flags held ≡ true) ↔ (has_bit mask flags ≡ true → held ≡ true)
unfolding asked_flag
asked_flag_iff mask flags held = go (has_bit mask flags)
  where
    go : (b : Bool) → ((if b then held else true) ≡ true) ↔ (b ≡ true → held ≡ true)
    go true = ((λ h _. h), (λ h. h refl))
    go false = ((λ h e. cc), (λ h. refl))

set_bit-sets :
    (b : Bool) (flags : ℕ)
    → b ≡ true
    → (has_bit forwardable (set_bit_if b forwardable flags) ≡ true)
      × (has_bit proxiable (set_bit_if b proxiable flags) ≡ true)
      × (has_bit renewable (set_bit_if b renewable flags) ≡ true)
unfolding set_bit_if
set_bit-sets b flags e = (ground arith, ground arith, ground arith)

-- Setting one of the bits keeps the bits that are set.
set_bit-keeps :
    (b : Bool) (flags : ℕ)
    → ((has_bit forwardable flags ≡ true)
        → (has_bit forwardable (set_bit_if b forwardable flags) ≡ true)
          × (has_bit forwardable (set_bit_if b proxiable flags) ≡ true)
          × (has_bit forwardable (set_bit_if b renewable flags) ≡ true))
      × ((has_bit proxiable flags ≡ true)
          → (has_bit proxiable (set_bit_if b proxiable flags) ≡ true)
            × (has_bit proxiable (set_bit_if b renewable flags) ≡ true))
      × ((has_bit renewable flags ≡ true) → has_bit renewable (set_bit_if b renewable flags) ≡ true)
unfolding set_bit_if
set_bit-keeps b flags = (
  λ h. (ground arith, ground arith, ground arith),
  λ h. (ground arith, ground arith),
  λ h. ground arith,
)

-- The ticket granting tickets that a search finds for a hint.
abbrev pub Suits : Hint → Tkt → Type 0
Suits tkthint tgt =
    (has_bit forwardable tkthint.tktflags ≡ true → forwardable_p tgt ≡ true)
    × (has_bit forwarded tkthint.tktflags ≡ true → forwardable_p tgt ≡ true)
    × (has_bit proxiable tkthint.tktflags ≡ true → proxiable_p tgt ≡ true)
    × (has_bit proxy tkthint.tktflags ≡ true → proxiable_p tgt ≡ true)
    × (has_bit renewable tkthint.tktflags ≡ true → renewable_p tgt ≡ true)
    × (has_bit kdcoptions_renew tkthint.kdcoptions ≡ true → renewable_p tgt ≡ true)

-- What shishi_tkt_match_p asks, condition by condition.
abbrev pub Matches : ℕ → Tkt → Hint → Type 0
Matches now tkt hint =
    ((s : Bytes) → hint.server ≡ some s → server_p tkt s ≡ true)
    × ((c : Bytes) → hint.client ≡ some c → client_p tkt c ≡ true)
    × (has_bit accept_expired hint.flags ≡ false → valid_at_time_p tkt now ≡ true)
    × (has_bit forwardable hint.tktflags ≡ true → forwardable_p tkt ≡ true)
    × (has_bit forwarded hint.tktflags ≡ true → forwarded_p tkt ≡ true)
    × (has_bit renewable hint.tktflags ≡ true → renewable_p tkt ≡ true)
    × (has_bit proxiable hint.tktflags ≡ true → proxiable_p tkt ≡ true)
    × (has_bit proxy hint.tktflags ≡ true → proxy_p tkt ≡ true)
    × ((hint.etype ≡ 0) ⊎ (keytype_p tkt hint.etype ≡ true))

asked_valid_iff :
    (tkt : Tkt) (flags now : ℕ)
    → (asked_valid tkt flags now ≡ true)
      ↔ (has_bit accept_expired flags ≡ false → valid_at_time_p tkt now ≡ true)
unfolding asked_valid
asked_valid_iff tkt flags now = go (has_bit accept_expired flags)
  where
    go :
        (b : Bool)
        → ((if b then true else valid_at_time_p tkt now) ≡ true)
          ↔ (b ≡ false → valid_at_time_p tkt now ≡ true)
    go true = ((λ h e. cc), (λ h. refl))
    go false = ((λ h _. h), (λ h. h refl))

asked_etype_iff :
    (tkt : Tkt) (etype : ℕ)
    → (asked_etype tkt etype ≡ true) ↔ ((etype ≡ 0) ⊎ (keytype_p tkt etype ≡ true))
unfolding asked_etype
asked_etype_iff tkt etype = ((λ h. ground arith), (λ h. ground arith))

infixr 2 ◌also◌
-- A conjunction of tests, part by part.
◌also◌ :
    {a b : Bool} {P Q : Type 0} → ((a ≡ true) ↔ P) → ((b ≡ true) ↔ Q) → (a && b ≡ true) ↔ (P × Q)
◌also◌ {a} {b} f g = (
  λ h. let p = (and_iff a b).0 h in (f.0 (p.0), g.0 (p.1)),
  λ h. (and_iff a b).1 (f.1 (h.0), g.1 (h.1)),
)

-- A ticket matches a hint exactly when it meets each condition that the hint sets: the server, the
-- client, a time within the ticket's life unless expired tickets are accepted, each of the five
-- flags that is asked for, and the key's type.
pub match_p_iff :
    (now : ℕ) (tkt : Tkt) (hint : Hint) → (match_p now tkt hint ≡ true) ↔ Matches now tkt hint
unfolding match_p
match_p_iff now tkt hint =
    let tests =
      asked_iff server_p tkt hint.server
      also asked_iff client_p tkt hint.client
      also asked_valid_iff tkt hint.flags now
      also asked_flag_iff forwardable hint.tktflags (forwardable_p tkt)
      also asked_flag_iff forwarded hint.tktflags (forwarded_p tkt)
      also asked_flag_iff renewable hint.tktflags (renewable_p tkt)
      also asked_flag_iff proxiable hint.tktflags (proxiable_p tkt)
      also asked_flag_iff proxy hint.tktflags (proxy_p tkt)
      also asked_etype_iff tkt hint.etype in
    (
      (λ h.
          let m = tests.0 h in
          (
            m.0, m.1.0, m.1.1.0, m.1.1.1.0, m.1.1.1.1.0, m.1.1.1.1.1.0, m.1.1.1.1.1.1.0,
            m.1.1.1.1.1.1.1.0, m.1.1.1.1.1.1.1.1,
          )),
      (λ m. tests.1 (m.0, (m.1, (m.2, (m.3, (m.4, (m.5, (m.6, (m.7, m.8))))))))),
    )

module _ (b1 b2 b3 b4 : Bool) where
  renewable-kept :
      (flags : ℕ)
      → has_bit renewable flags ≡ true
      → has_bit renewable (set_bit_if b1 renewable flags) ≡ true
  renewable-kept flags h = (set_bit-keeps b1 flags).2 h

  proxiable-kept :
      (flags : ℕ)
      → has_bit proxiable flags ≡ true
      → has_bit proxiable (set_bit_if b2 renewable (set_bit_if b1 renewable flags)) ≡ true
  proxiable-kept flags h =
      let h1 = ((set_bit-keeps b1 flags).1 h).1 in
      ((set_bit-keeps b2 (set_bit_if b1 renewable flags)).1 h1).1

  forwardable-kept :
      (flags : ℕ)
      → has_bit forwardable flags ≡ true
      → has_bit forwardable (
          set_bit_if b4 renewable
            (set_bit_if b3 renewable (set_bit_if b2 proxiable (set_bit_if b1 proxiable flags))))
        ≡ true
  forwardable-kept flags h =
      let h1 = ((set_bit-keeps b1 flags).0 h).1 in
      let f1 = set_bit_if b1 proxiable flags in
      let h2 = ((set_bit-keeps b2 f1).0 h1).1 in
      let f2 = set_bit_if b2 proxiable f1 in
      let h3 = ((set_bit-keeps b3 f2).0 h2).2 in
      ((set_bit-keeps b4 (set_bit_if b3 renewable f2)).0 h3).2

-- The bits that a hint for a ticket puts in the hint for its ticket granting ticket.
tgt_tktflags_lem :
    (tkthint : Hint) (flags : ℕ)
    → (has_bit forwardable tkthint.tktflags ≡ true
        → has_bit forwardable (tgt_tktflags tkthint flags) ≡ true)
      × (has_bit forwarded tkthint.tktflags ≡ true
          → has_bit forwardable (tgt_tktflags tkthint flags) ≡ true)
      × (has_bit proxiable tkthint.tktflags ≡ true
          → has_bit proxiable (tgt_tktflags tkthint flags) ≡ true)
      × (has_bit proxy tkthint.tktflags ≡ true
          → has_bit proxiable (tgt_tktflags tkthint flags) ≡ true)
      × (has_bit renewable tkthint.tktflags ≡ true
          → has_bit renewable (tgt_tktflags tkthint flags) ≡ true)
      × (has_bit kdcoptions_renew tkthint.kdcoptions ≡ true
          → has_bit renewable (tgt_tktflags tkthint flags) ≡ true)
unfolding tgt_tktflags
tgt_tktflags_lem tkthint flags =
    let b1 = has_bit forwardable tkthint.tktflags in
    let b2 = has_bit forwarded tkthint.tktflags in
    let b3 = has_bit proxiable tkthint.tktflags in
    let b4 = has_bit proxy tkthint.tktflags in
    let b5 = has_bit renewable tkthint.tktflags in
    let b6 = has_bit kdcoptions_renew tkthint.kdcoptions in
    let f1 = set_bit_if b1 forwardable flags in
    let f2 = set_bit_if b2 forwardable f1 in
    let f3 = set_bit_if b3 proxiable f2 in
    let f4 = set_bit_if b4 proxiable f3 in
    let f5 = set_bit_if b5 renewable f4 in
    (
      λ e.
          forwardable-kept b3 b4 b5 b6 f2 (((set_bit-keeps b2 f1).0 (set_bit-sets b1 flags e).0).0),
      λ e. forwardable-kept b3 b4 b5 b6 f2 ((set_bit-sets b2 f1 e).0),
      λ e. proxiable-kept b5 b6 b5 b6 f4 (((set_bit-keeps b4 f3).1 (set_bit-sets b3 f2 e).1).0),
      λ e. proxiable-kept b5 b6 b5 b6 f4 ((set_bit-sets b4 f3 e).1),
      λ e. renewable-kept b6 b6 b6 b6 f5 ((set_bit-sets b5 f4 e).2),
      λ e. (set_bit-sets b6 f5 e).2,
    )

-- A ticket granting ticket that a search finds with the hint of set_tgtflags_based_on_hint suits
-- the ticket that is wanted: it is forwardable for a forwardable or forwarded ticket, proxiable for
-- a proxiable or proxy ticket, and renewable for a renewable ticket or a renewal.
pub match_p-set_tgtflags_based_on_hint :
    (now : ℕ) (tgt : Tkt) (tkthint tgthint : Hint)
    → match_p now tgt (set_tgtflags_based_on_hint tkthint tgthint) ≡ true
    → Suits tkthint tgt
unfolding set_tgtflags_based_on_hint
match_p-set_tgtflags_based_on_hint now tgt tkthint tgthint h =
    let m = (match_p_iff now tgt (set_tgtflags_based_on_hint tkthint tgthint)).0 h in
    let s = tgt_tktflags_lem tkthint tgthint.tktflags in
    (
      λ e. m.3 (s.0 e),
      λ e. m.3 (s.1 e),
      λ e. m.6 (s.2 e),
      λ e. m.6 (s.3 e),
      λ e. m.5 (s.4 e),
      λ e. m.5 (s.5 e),
    )
