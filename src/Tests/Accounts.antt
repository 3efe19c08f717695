-- ===== src/Tests/Accounts.antt =====
-- A computer with one account: a run of Authorize.
use shishi.Base.{true, [], ◌∷◌, some, none, Bytes, codes, str_equal, if◌then◌else◌, ◌≡◌, refl}
use shishi.Authorize.{Accounts, authorized_p, authorization_parse}
use shishi.Authorize.Safe.{IsAuthorized, authorized_p-IsAuthorized}

abbrev computer : Accounts
computer = record {
  getpwnam = λ name.
      if str_equal name (codes "ann")
      then some (record { pw_uid = 1000; pw_dir = some (codes "/h") })
      else none;
  stat = λ path. some (record { st_uid = 1000; st_mode = 0x81A4 });
  getlines = λ path. some (codes "x@A\n" ∷ codes "bob@A\n" ∷ []);
  strtol = λ text. none;
}

parse_k5login : authorization_parse computer (codes "K5Login") ≡ 1
unfolding authorization_parse
parse_k5login = refl

bob_authorized :
    authorized_p computer (some (codes "bob")) (some (codes "bob@A")) (0 ∷ 1 ∷ []) (codes "ann")
    ≡ true
unfolding authorized_p
bob_authorized = refl

authorized_p-IsAuthorized_example :
    (c : Bytes) × (r : Bytes) × (some (codes "bob") ≡ some c)
    × (some (codes "bob@A") ≡ some r)
    × IsAuthorized computer c r (0 ∷ 1 ∷ []) (codes "ann")
authorized_p-IsAuthorized_example =
    authorized_p-IsAuthorized computer (some (codes "bob")) (some (codes "bob@A")) (0 ∷ 1 ∷ [])
      (codes "ann") bob_authorized
