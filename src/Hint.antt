-- ===== src/Hint.antt =====
-- Searching for tickets: Shishi_tkts_hint of lib/shishi.h, and shishi_tkt_match_p and
-- set_tgtflags_based_on_hint of lib/tkts.c. A number that is 0 and a pointer that is NULL are not
-- set, a salt and its length are one list; `time (NULL)` is an argument `now`.
pub mod Match
use shishi.Base.{
  ℕ, ◌+◌, ◌/◌, ◌%◌, Bool, true, false, not, Option, none, some, Bytes, ◌==◌, ◌&&◌, if◌then◌else◌,
}
use shishi.Tkt.{
  Tkt, forwardable, forwarded, proxiable, proxy, renewable, has_bit, forwardable_p, forwarded_p,
  proxiable_p, proxy_p, renewable_p, client_p, server_p, keytype_p, valid_at_time_p,
}

pub record Hint : Type 0 where
  pub startpos : ℕ
  pub server : Option Bytes
  pub serverrealm : Option Bytes
  pub client : Option Bytes
  pub clientrealm : Option Bytes
  pub flags : ℕ
  pub tktflags : ℕ
  pub kdcoptions : ℕ
  pub etype : ℕ
  pub passwd : Option Bytes
  pub starttime : ℕ
  pub endtime : ℕ
  pub renew_till : ℕ
  pub preauthetype : ℕ
  pub preauthsalt : Option Bytes
  pub preauths2kparams : Option Bytes

-- SHISHI_TKTSHINTFLAGS_ACCEPT_EXPIRED
abbrev pub accept_expired : ℕ
accept_expired = 1

-- SHISHI_KDCOPTIONS_RENEW
abbrev pub kdcoptions_renew : ℕ
kdcoptions_renew = 0x40000000

-- `if (text && !test (tkt, text)) return 0;`
abbrev pub asked : (Tkt → Bytes → Bool) → Tkt → Option Bytes → Bool
asked test tkt none = true
asked test tkt (some text) = test tkt text

-- `if ((tktflags & mask) && !test (tkt)) return 0;`
unfoldable pub asked_flag : ℕ → ℕ → Bool → Bool
asked_flag mask tktflags held = if has_bit mask tktflags then held else true

unfoldable pub asked_valid : Tkt → ℕ → ℕ → Bool
asked_valid tkt flags now = if has_bit accept_expired flags then true else valid_at_time_p tkt now

unfoldable pub asked_etype : Tkt → ℕ → Bool
asked_etype tkt etype = if etype == 0 then true else keytype_p tkt etype

unfoldable pub match_p : ℕ → Tkt → Hint → Bool
match_p now tkt hint =
    asked server_p tkt hint.server
    && (asked client_p tkt hint.client
        && (asked_valid tkt hint.flags now
            && (asked_flag forwardable hint.tktflags (forwardable_p tkt)
                && (asked_flag forwarded hint.tktflags (forwarded_p tkt)
                    && (asked_flag renewable hint.tktflags (renewable_p tkt)
                        && (asked_flag proxiable hint.tktflags (proxiable_p tkt)
                            && (asked_flag proxy hint.tktflags (proxy_p tkt)
                                && asked_etype tkt hint.etype)))))))

-- `flags |= mask` under an if, for a mask of one bit
unfoldable pub set_bit_if : Bool → ℕ → ℕ → ℕ
set_bit_if asked mask flags =
    if asked then (if has_bit mask flags then flags else flags + mask) else flags

unfoldable pub tgt_tktflags : Hint → ℕ → ℕ
tgt_tktflags tkthint flags0 =
    let flags1 = set_bit_if (has_bit forwardable tkthint.tktflags) forwardable flags0 in
    let flags2 = set_bit_if (has_bit forwarded tkthint.tktflags) forwardable flags1 in
    let flags3 = set_bit_if (has_bit proxiable tkthint.tktflags) proxiable flags2 in
    let flags4 = set_bit_if (has_bit proxy tkthint.tktflags) proxiable flags3 in
    let flags5 = set_bit_if (has_bit renewable tkthint.tktflags) renewable flags4 in
    set_bit_if (has_bit kdcoptions_renew tkthint.kdcoptions) renewable flags5

-- `if (from) to = from;`
abbrev pub given : ℕ → ℕ → ℕ
given from to = if from == 0 then to else from

abbrev pub given_text : Option Bytes → Option Bytes → Option Bytes
given_text none to = to
given_text (some from) to = some from

unfoldable pub set_tgtflags_based_on_hint : Hint → Hint → Hint
set_tgtflags_based_on_hint tkthint tgthint = record tgthint {
  tktflags = tgt_tktflags tkthint tgthint.tktflags;
  passwd = given_text tkthint.passwd tgthint.passwd;
  endtime = given tkthint.endtime tgthint.endtime;
  preauthetype = given tkthint.preauthetype tgthint.preauthetype;
  preauthsalt = given_text tkthint.preauthsalt tgthint.preauthsalt;
  preauths2kparams = given_text tkthint.preauths2kparams tgthint.preauths2kparams;
}
