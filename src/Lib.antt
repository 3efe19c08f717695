-- ===== src/Lib.antt =====
-- Shishi, an implementation of Kerberos V5 (jactry/shishi): a model of parts of its library, with the
-- theorems about them.
--
-- The parts, and how they interact. The library (lib/) keeps keys (lib/key.c) in key sets
-- (lib/keys.c), exchanges them with other implementations as MIT keytab files (lib/keytab.c), and
-- reads MIT credential caches (lib/ccache.c). The key lengths come from the table of encryption
-- types in lib/crypto.c. Tickets (lib/tkt.c) are kept in ticket sets (lib/tkts.c), which are
-- searched with hints; when none is found the library looks for a ticket granting ticket with a hint
-- made from the first. When there is no such ticket either, an AS exchange asks the KDC for it, and
-- again with pre-authentication data when the KDC wants that. Principals are named in text
-- (lib/principal.c), for users, in tickets and as salts of passwords. Credential caches are imported
-- into a set (lib/tktccache.c). The server keeps realms, principals and their keys in a user
-- database (db/): a list of databases (db/core.c), each a tree of directories (db/file.c,
-- db/fileutil.c), that a configuration names (db/config.c). A service asks lib/authorize.c whether a
-- client may use an account. The realm of a host comes from the configuration or from the DNS
-- (lib/realm.c). The KDC reads requests from sockets (src/server.c), whose TLS sessions can be
-- resumed from a cache (src/resume.c), and answers them by the user database (src/kdc.c).
--
-- Which file models what. A C function shishi_f is the definition f.
--   Base, Outcome: tests, lists; the outcomes of a C call (a value, a return code, or what C
--     leaves undefined) and blocks of such calls.
--   Wire: integers in byte buffers. Plain char is signed, as on x86 with gcc: shifts and ors of bytes
--     are written as the sign extension makes them.
--   Ccache: the structures of lib/ccache.h and the get_ and put_ functions of lib/ccache.c;
--     Ccache.Parse its parse_ functions, Ccache.Pack its pack_ functions.
--   Cipher: the tables of lib/crypto.c. Key: lib/key.c. Keys: lib/keys.c.
--   Keytab: the cursor of lib/keytab.c; Keytab.Read shishi_keys_add_keytab_mem, Keytab.Write
--     key_to_keytab_entry and shishi_keys_to_keytab_mem.
--   Tkt: the tests of lib/tkt.c on a ticket. Hint: shishi_tkt_match_p and set_tgtflags_based_on_hint of
--     lib/tkts.c; Tkts: the sets of lib/tkts.c. Tkts.Preauth: do_preauth, recover_preauth_info and
--     recover_preauth of lib/tkts.c; Tkts.Request: act_hint_on_kdcreq;
--     Tkts.Get: shishi_tkts_get, with the AS and TGS exchanges.
--     Tkts.Import: shishi_tkts_add_ccache_mem of lib/tktccache.c.
--   Principal: the names of lib/principal.c in text form, with their escapes, and the default salt.
--   Crypto: the arithmetic of n-fold in lib/crypto.c, the derivation of keys and the simplified profile.
--   Shisa.Filename, Shisa.System: db/fileutil.c, over the calls of the C library. Shisa.Number,
--     Shisa.Key: the text of a key's file, its reading and the hints of db/file.c. Shisa.KeyFiles,
--     Shisa.File: the keys, and the realms and principals, of db/file.c. Shisa.Core: db/core.c over a
--     list of databases. Shisa.Config: db/config.c.
--   Authorize: lib/authorize.c.
--   Server: the buffers of the sockets of src/server.c, and the turns of kdc_loop for one of them.
--   Resume: the cache of src/resume.c; Resume.Queue what it stands for.
--   Kdc: src/kdc.c. Kdc.Steps: the exits to its label `fatal`. Kdc.Select: the choice of keys and types.
--     Kdc.Asreq: asreq1, Kdc.Tgsreq: tgsreq1, each in blocks of the function's calls; Kdc.Process:
--     asreq, tgsreq and process. An exchange is what the code writes into Shishi_as or Shishi_tgs.
--   Realm: lib/realm.c, over the names of the host and the answers of the DNS.
--   Tests: runs and instances.
--
-- State and representation. A pointer and the length behind it are the list of the bytes left; an
-- output pointer and the room behind it are a record. Strings are lists of bytes without the
-- terminating zero, NULL is none. Memory allocation does not fail (the code aborts there), and
-- messages to the user are left out.
--
-- Bounds and fuel. The loops of lib/keytab.c take fuel, since the integrity check need not end; more
-- fuel than entries is enough where it does. The loops of shishi_parse_name end with fuel
-- for two turns a byte. The loop of shishi_tkts_expire and a caller's loop over
-- shishi_tkts_find take fuel too; more fuel than tickets is enough. shishi_tkts_get takes fuel for the
-- turns of the AS exchange, of which two are enough where the client's encryption types do not have 0.
-- shishi_tkts_add_ccache_mem takes fuel for its
-- turns, since it need not end; more fuel than bytes is enough where it does. The search of
-- shisa_file_key_add for a free file name takes fuel for the names that it tries.
-- Sizes are taken below 2^63, and a call's `time (NULL)` is one value.
--
-- Not modelled: terminals, and the calls on sockets; ASN.1, which the code leaves to libtasn1, and the requests and
-- replies that are made of it; the cryptographic primitives, which it leaves to its gnulib copy. The
-- calls on files, the exchanges with a KDC, and the ASN.1 calls that make a ticket are parameters.
-- Of the KDC, what its ASN.1 calls read of a request and whether they write a field, the encodings,
-- random keys and the bytes that a socket gives are parameters; accepting and closing connections, TLS
-- and log messages are left out. The configuration of lib/cfg.c but for its default type and the
-- programs are not modelled.
pub mod Base
pub mod Outcome
pub mod Wire
pub mod Ccache
pub mod Cipher
pub mod Key
pub mod Keys
pub mod Keytab
pub mod Tests
pub mod Hint
pub mod Tkt
pub mod Tkts
pub mod Principal
pub mod Crypto
pub mod Checksum
pub mod Shisa
pub mod Authorize
pub mod Server
pub mod Resume
pub mod Realm
pub mod Kdc
