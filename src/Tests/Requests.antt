-- ===== src/Tests/Requests.antt =====
-- A realm with a user and a ticket granter: runs of Kdc.
use shishi.Base.{
  ℕ, Bool, true, false, ◌||◌, [], ◌∷◌, some, none, Option, Bytes, drop, ◌⊎◌, codes, replicate,
  str_equal, if◌then◌else◌, ◌≡◌, refl,
}
use shishi.Outcome.{ok}
use shishi.Key.{Key, new_key, key_from_value, key_value_set, copy_value}
use shishi.Cipher.{cipher_keylen, cipher_supported_p, find_cipher, ciphers}
use shishi.Shisa.Key.{ShisaKey}
use shishi.Shisa.KeyFiles.{shisa_ok, no_principal}
use shishi.Shisa.Core.{Backend, shisa_principal_find, shisa_keys_find, keys_find_from}
use shishi.Kdc.Steps.{go_on, fatal}
use shishi.Kdc.{Server, Exchange, Ticket, find_principal, find_keys}
use shishi.Kdc.Select.{select, last_match, type_match}
use shishi.Kdc.Asreq.{AsReq, asreq1, asreq_parties, asreq_keys, asreq_flags, asreq_reply}
use shishi.Kdc.Asreq.Issued as AsIssued
use shishi.Kdc.Asreq.Issued.{asreq1-IsIssued}
use shishi.Kdc.Tgsreq.{
  TgsReq, Opened, tgsreq1, tgsreq_granter, tgsreq_target, tgsreq_ticket, tgsreq_reply,
}
use shishi.Kdc.Tgsreq.Issued as TgsIssued
use shishi.Kdc.Tgsreq.Issued.{tgsreq1-IsIssued}
use shishi.Kdc.Process.{Messages, asreq, process, process_node}
use shishi.Kdc.Process.Answers.{process_answers, IsAsAnswer, IsTgsAnswer}
use shishi.Kdc.Process.Refused.{asreq-IsRefused, unknown_client}

abbrev stored : ℕ → ℕ → ShisaKey
stored etype len = record {
  kvno = 1;
  etype = etype;
  priority = 0;
  key = replicate len etype;
  salt = [];
  str2keyparam = [];
  password = none;
}

abbrev is_there : Bytes → Bool
is_there name = str_equal name (codes "ann") || str_equal name (codes "tgt")

-- ann has keys of the types 18 and 17, the ticket granter one of 17.
abbrev database : Backend (Unit {0})
database = record {
  enumerate_realms = λ s. (shisa_ok, []);
  enumerate_principals = λ realm s. (shisa_ok, []);
  principal_find = λ realm name s. if is_there name then (shisa_ok, none) else (no_principal, none);
  principal_update = λ realm name p s. (shisa_ok, s);
  principal_add = λ realm name p key s. none;
  principal_remove = λ realm name s. (shisa_ok, s);
  keys_find = λ realm name hint s.
      if str_equal name (codes "ann")
      then some (shisa_ok, stored 18 32 ∷ stored 17 16 ∷ [])
      else some (shisa_ok, stored 17 16 ∷ []);
  key_add = λ realm name key s. none;
  key_update = λ realm name old new s. (shisa_ok, s);
  key_remove = λ realm name key s. none;
}

abbrev kdc : Server (Unit {0})
kdc = record {
  dbs = database ∷ [];
  clientkdcetypes = [];
  key_random = λ type. ok (record new_key { type = type });
  write = λ w x. none;
}

abbrev blank : Ticket
blank = record {
  endtime = none;
  flags = 0;
  key = none;
  client = none;
  server = none;
  sealed = none;
}

abbrev new_exchange : Exchange
new_exchange = record { errorcode = none; tkt = some blank; reply = none }

-- The client accepts the types 99, which the library has not, 17 and 18.
abbrev as_request : Bytes → AsReq
as_request client = record {
  realm = ok (codes "R");
  client = ok client;
  server = ok (codes "tgt");
  etypes = 99 ∷ 17 ∷ 18 ∷ [];
  till = ok (codes "20300101000000Z", 16);
  forwardable = true;
  allow_postdate = false;
  postdated = false;
  proxiable = false;
  renewable = true;
}

abbrev key17 : Key
key17 = record new_key { type = 17; value = copy_value 16 (replicate 16 17) (replicate 32 0) }

abbrev as_issued : Exchange
as_issued = record {
  errorcode = none;
  tkt = some record {
    endtime = some (codes "20300101000000Z");
    flags = 0x102;
    key = some (record new_key { type = 17 });
    client = some (codes "R", codes "ann");
    server = some (codes "R", codes "tgt");
    sealed = some key17;
  };
  reply = some (3, key17);
}

ann_served : asreq1 kdc (as_request (codes "ann")) tt new_exchange ≡ (go_on tt, as_issued)
unfolding asreq1 asreq_parties asreq_keys asreq_flags asreq_reply find_principal find_keys select
    shisa_principal_find shisa_keys_find keys_find_from key_from_value key_value_set cipher_keylen
    cipher_supported_p find_cipher ciphers last_match type_match
ann_served = refl

-- A `till` of fourteen characters
short_till_unbuilt :
    asreq1 kdc
      (record (as_request (codes "ann")) { till = ok (codes "20300101000000", 15) })
      tt
      new_exchange
    ≡ (fatal none, new_exchange)
unfolding asreq1 asreq_parties asreq_keys find_principal find_keys select shisa_principal_find
    shisa_keys_find keys_find_from key_from_value key_value_set cipher_keylen cipher_supported_p
    find_cipher ciphers last_match type_match
short_till_unbuilt = refl

asreq1-IsIssued_example : AsIssued.IsIssued kdc (as_request (codes "ann")) tt as_issued
asreq1-IsIssued_example =
    asreq1-IsIssued kdc (as_request (codes "ann")) tt new_exchange tt as_issued ann_served

abbrev opened : Opened
opened = record {
  crealm = ok (codes "R");
  client = ok (codes "ann");
  session_key = ok (record new_key { type = 18 });
  subkey = ok none;
}

abbrev tgs_request : TgsReq
tgs_request = record {
  req_process = ok tt;
  tgrealm = ok (codes "R");
  tgname = ok (codes "tgt");
  ap_req_process = λ key. ok opened;
  realm = ok (codes "R");
  server = ok (codes "ann");
  till = codes "20300101000000Z";
}

abbrev key18 : Key
key18 = record new_key { type = 18; value = copy_value 32 (replicate 32 18) (replicate 32 0) }

abbrev tgs_issued : Exchange
tgs_issued = record {
  errorcode = none;
  tkt = some record {
    endtime = some (codes "20300101000000Z");
    flags = 0;
    key = some (record new_key { type = 18 });
    client = some (codes "R", codes "ann");
    server = some (codes "R", codes "ann");
    sealed = some key18;
  };
  reply = some (8, record new_key { type = 18 });
}

ticket_served : tgsreq1 kdc tgs_request tt new_exchange ≡ (go_on tt, tgs_issued)
unfolding tgsreq1 tgsreq_granter tgsreq_target tgsreq_ticket tgsreq_reply find_principal find_keys
    shisa_principal_find shisa_keys_find keys_find_from key_from_value key_value_set cipher_keylen
    find_cipher ciphers
ticket_served = refl

tgsreq1-IsIssued_example : TgsIssued.IsIssued kdc tgs_request tt tgs_issued
tgsreq1-IsIssued_example =
    tgsreq1-IsIssued kdc tgs_request tt new_exchange tt tgs_issued ticket_served

-- The first byte of a message is its type; one of type 10 is an AS-REQ of the user named behind it.
abbrev first : Bytes → ℕ
first [] = 0
first (c ∷ bytes) = c

abbrev code_of : Option ℕ → ℕ
code_of none = 60
code_of (some code) = code

abbrev messages : Messages
messages = record {
  Node = Bytes;
  der2asn1 = λ inp. some inp;
  msgtype = first;
  as_req = λ node. as_request (drop 1 node);
  tgs_req = λ node. tgs_request;
  new_as = ok new_exchange;
  new_tgs = ok new_exchange;
  as_rep_der = λ x. ok (11 ∷ []);
  as_krberror_der = λ x. ok (30 ∷ code_of x.errorcode ∷ []);
  tgs_rep_der = λ x. ok (13 ∷ []);
  tgs_krberror_der = λ x. ok (30 ∷ code_of x.errorcode ∷ []);
}

bob_unknown : (shisa_principal_find kdc.dbs (codes "R") (codes "bob") tt).0 ≡ no_principal
unfolding shisa_principal_find
bob_unknown = refl

asreq-IsRefused_example : asreq messages kdc tt (as_request (codes "bob")) ≡ go_on (30 ∷ 6 ∷ [])
asreq-IsRefused_example =
    asreq-IsRefused kdc (as_request (codes "bob")) tt new_exchange messages (codes "R")
      (codes "bob") (codes "tgt") 6 refl refl refl refl (unknown_client bob_unknown) refl

ann_answered : process messages kdc tt (10 ∷ codes "ann") ≡ go_on (11 ∷ [])
unfolding process process_node asreq
ann_answered = rw ann_served refl

process_answers_example :
    (node : Bytes) × (some (10 ∷ codes "ann") ≡ some node)
    × (((first node ≡ 10) × IsAsAnswer messages kdc tt (as_request (drop 1 node)) (11 ∷ []))
        ⊎ ((first node ≡ 12) × IsTgsAnswer messages kdc tt tgs_request (11 ∷ [])))
process_answers_example = process_answers messages kdc tt (10 ∷ codes "ann") (11 ∷ []) ann_answered
