-- ===== src/Tests/TicketSet.antt =====
-- A set of three tickets: the tests of Tkts and Hint.
use shishi.Base.{ℕ, [], ◌∷◌, List, none, some, ◌≡◌, refl, arith}
use shishi.Outcome.{ok}
use shishi.Tkt.{
  Tkt, expired_p, flags_or_zero, client_p, server_p, keytype_p, valid_at_time_p, not_after,
  not_before, start_or_auth,
}
use shishi.Hint.{
  Hint, match_p, asked_flag, asked_valid, asked_etype, set_bit_if, tgt_tktflags,
  set_tgtflags_based_on_hint,
}
use shishi.Hint.Match.{Suits, match_p-set_tgtflags_based_on_hint}
use shishi.Tkts.{tkts_expire}
use shishi.Tkts.Expire.{tkts_expire_lem, unexpired, count_expired}
use shishi.Tkts.Find.{find_each, find_each_lem, matching}

abbrev ticket : ℕ → ℕ → Tkt
ticket flags endtime = record {
  client = some (b'a' ∷ []);
  server = some (b'k' ∷ []);
  flags = some flags;
  keytype = some 18;
  startctime = none;
  authctime = some 100;
  endctime = some endtime;
}

abbrev set : List Tkt
set = ticket 0x2 150 ∷ ticket 0x10A 500 ∷ ticket 0 600 ∷ []

abbrev no_hint : Hint
no_hint = record {
  startpos = 0;
  server = some (b'k' ∷ []);
  serverrealm = none;
  client = none;
  clientrealm = none;
  flags = 0;
  tktflags = 0;
  kdcoptions = 0;
  etype = 18;
  passwd = none;
  starttime = 0;
  endtime = 0;
  renew_till = 0;
  preauthetype = 0;
  preauthsalt = none;
  preauths2kparams = none;
}

abbrev proxy_hint : Hint
proxy_hint = record no_hint { tktflags = 0x10 }

tkts_expire_lem_example :
    tkts_expire 200 4 (some set) ≡ some (ok (ticket 0x10A 500 ∷ ticket 0 600 ∷ [], 1))
unfolding unexpired count_expired expired_p
tkts_expire_lem_example = tkts_expire_lem 200 4 set (omega arith)

find_each_lem_example :
    find_each 3 200 set (record no_hint { startpos = 1 })
    ≡ some (ticket 0x10A 500 ∷ ticket 0 600 ∷ [])
unfolding matching match_p asked_flag asked_valid asked_etype flags_or_zero client_p server_p
    keytype_p valid_at_time_p not_after not_before start_or_auth
find_each_lem_example = find_each_lem 3 200 set (record no_hint { startpos = 1 }) (omega arith)

match_p-set_tgtflags_based_on_hint_example : Suits proxy_hint (ticket 0x10A 500)
unfolding match_p asked_flag asked_valid asked_etype flags_or_zero client_p server_p keytype_p
    valid_at_time_p not_after not_before start_or_auth set_tgtflags_based_on_hint tgt_tktflags
    set_bit_if
match_p-set_tgtflags_based_on_hint_example =
    match_p-set_tgtflags_based_on_hint 200 (ticket 0x10A 500) proxy_hint no_hint refl
