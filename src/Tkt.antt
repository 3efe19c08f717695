-- ===== src/Tkt.antt =====
-- Tickets: lib/tkt.c. A ticket is what its accessors read in its ASN.1 nodes: `none` is a read that
-- fails. A time is in seconds since the epoch, and `none` is the `(time_t) -1` of the accessors.
use shishi.Base.{
  str_equal, true, ℕ, ◌/◌, ◌%◌, Bool, false, Option, none, some, Bytes, ltb, leb, ◌==◌, ◌&&◌,
}

pub record Tkt : Type 0 where
  pub client : Option Bytes
  pub server : Option Bytes
  pub flags : Option ℕ
  pub keytype : Option ℕ
  pub startctime : Option ℕ
  pub authctime : Option ℕ
  pub endctime : Option ℕ

-- The bits of Shishi_ticketflags.
abbrev pub forwardable : ℕ
forwardable = 0x2

abbrev pub forwarded : ℕ
forwarded = 0x4

abbrev pub proxiable : ℕ
proxiable = 0x8

abbrev pub proxy : ℕ
proxy = 0x10

abbrev pub renewable : ℕ
renewable = 0x100

-- `flags & mask`, for a mask of one bit
abbrev pub has_bit : ℕ → ℕ → Bool
has_bit mask flags = (flags / mask) % 2 == 1

-- `uint32_t flags = 0; shishi_tkt_flags (tkt, &flags);`
unfoldable pub flags_or_zero : Tkt → ℕ
flags_or_zero tkt = elim tkt.flags [ none ↦ 0 | some flags ↦ flags ]

abbrev pub forwardable_p : Tkt → Bool
forwardable_p tkt = has_bit forwardable (flags_or_zero tkt)

abbrev pub forwarded_p : Tkt → Bool
forwarded_p tkt = has_bit forwarded (flags_or_zero tkt)

abbrev pub proxiable_p : Tkt → Bool
proxiable_p tkt = has_bit proxiable (flags_or_zero tkt)

abbrev pub proxy_p : Tkt → Bool
proxy_p tkt = has_bit proxy (flags_or_zero tkt)

abbrev pub may_postdate_p : Tkt → Bool
may_postdate_p tkt = has_bit 0x20 (flags_or_zero tkt)

abbrev pub postdated_p : Tkt → Bool
postdated_p tkt = has_bit 0x40 (flags_or_zero tkt)

abbrev pub invalid_p : Tkt → Bool
invalid_p tkt = has_bit 0x80 (flags_or_zero tkt)

abbrev pub renewable_p : Tkt → Bool
renewable_p tkt = has_bit renewable (flags_or_zero tkt)

abbrev pub initial_p : Tkt → Bool
initial_p tkt = has_bit 0x200 (flags_or_zero tkt)

abbrev pub pre_authent_p : Tkt → Bool
pre_authent_p tkt = has_bit 0x400 (flags_or_zero tkt)

abbrev pub hw_authent_p : Tkt → Bool
hw_authent_p tkt = has_bit 0x800 (flags_or_zero tkt)

abbrev pub transited_policy_checked_p : Tkt → Bool
transited_policy_checked_p tkt = has_bit 0x1000 (flags_or_zero tkt)

abbrev pub ok_as_delegate_p : Tkt → Bool
ok_as_delegate_p tkt = has_bit 0x2000 (flags_or_zero tkt)

unfoldable pub client_p : Tkt → Bytes → Bool
client_p tkt client = elim tkt.client [ none ↦ false | some buf ↦ str_equal client buf ]

unfoldable pub server_p : Tkt → Bytes → Bool
server_p tkt server = elim tkt.server [ none ↦ false | some buf ↦ str_equal server buf ]

unfoldable pub keytype_p : Tkt → ℕ → Bool
keytype_p tkt etype = elim tkt.keytype [ none ↦ false | some tktetype ↦ etype == tktetype ]

-- `t <= now` and `now <= t`, where -1 is before every time
unfoldable pub not_after : Option ℕ → ℕ → Bool
not_after none now = true
not_after (some t) now = leb t now

unfoldable pub not_before : Option ℕ → ℕ → Bool
not_before none now = false
not_before (some t) now = leb now t

-- `if (starttime == (time_t) -1) starttime = shishi_tkt_authctime (tkt);`
unfoldable pub start_or_auth : Option ℕ → Option ℕ → Option ℕ
start_or_auth none auth = auth
start_or_auth (some t) auth = some t

unfoldable pub valid_at_time_p : Tkt → ℕ → Bool
valid_at_time_p tkt now =
    not_after (start_or_auth tkt.startctime tkt.authctime) now && not_before tkt.endctime now

-- `endtime < now`
unfoldable pub expired_p : ℕ → Tkt → Bool
expired_p now tkt = elim tkt.endctime [ none ↦ true | some endtime ↦ ltb endtime now ]
