-- ===== src/Ccache/Pack.antt =====
-- Writing a credential cache: pack_principal, pack_credential, ccache_pack_credential and
-- ccache_pack of lib/ccache.c. A call that fails returns no bytes.
pub mod Layout
pub mod Whole
use shishi.Base.{ℕ, ◌-◌, List, [], ◌∷◌, Bytes, length, leb, ◌==◌, if◌then◌else◌}
use shishi.Outcome.{Outcome, ok, failed, overrun, minus_one, pure, fail, ◌>>◌}
use shishi.Ccache.{
  Principal, Credential, Cache, max_components, Buffer, Writer, put_uint8, put_uint16, put_uint32,
  put_uint32_swapped, put_data,
}

-- the loop over `components[n]`
pub pack_components : List Bytes → Writer
pack_components [] = pure tt
pack_components (c ∷ cs) = do put_uint32 (length c); put_data c; pack_components cs

pub pack_principal : Principal → Writer
pack_principal princ = do
  put_uint32 princ.name_type
  put_uint32 (length princ.components)
  if leb max_components (length princ.components) then fail minus_one else do
    put_uint32 (length princ.realm)
    put_data princ.realm
    pack_components princ.components

pub pack_credential : Credential → Writer
pack_credential cred = do
  pack_principal cred.client
  pack_principal cred.server
  put_uint16 cred.key.keytype
  put_uint16 cred.key.etype
  put_uint16 (length cred.key.keyvalue)
  put_data cred.key.keyvalue
  put_uint32 cred.authtime
  put_uint32 cred.starttime
  put_uint32 cred.endtime
  put_uint32 cred.renew_till
  put_uint8 0
  put_uint32_swapped cred.tktflags
  put_uint32 0
  put_uint32 0
  put_uint32 (length cred.ticket)
  put_data cred.ticket
  put_uint32 (length cred.second_ticket)
  put_data cred.second_ticket

-- What stands in `out`, and `*len` on return: `savelen - *len`.
unfoldable pub packed : ℕ → Outcome (Unit {0} × Buffer) → Outcome (Bytes × ℕ)
packed savelen (ok (_, w)) = ok (w.out, savelen - w.room)
packed savelen (failed rc) = failed rc
packed savelen overrun = overrun

pub pack_into : Writer → ℕ → Outcome (Bytes × ℕ)
pack_into pack savelen = packed savelen (pack (record { out = []; room = savelen }))

pub ccache_pack_credential : Credential → ℕ → Outcome (Bytes × ℕ)
ccache_pack_credential cred = pack_into (pack_credential cred)

-- the version that `ccache_pack` writes: 0x0504 for 0
abbrev pub version_or_default : ℕ → ℕ
version_or_default v = if v == 0 then 0x0504 else v

pub pack_cache : Cache → Writer
pack_cache info = do
  put_uint16 (version_or_default info.file_format_version)
  put_uint16 (length info.header)
  put_data info.header
  pack_principal info.default_principal

pub ccache_pack : Cache → ℕ → Outcome (Bytes × ℕ)
ccache_pack info = pack_into (pack_cache info)
