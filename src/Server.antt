-- ===== src/Server.antt =====
-- The buffers of the KDC's sockets: kdc_read, kdc_extension, kdc_ready, kdc_process, kdc_send and the
-- turn of kdc_loop for one socket, of src/server.c built without TLS. `buf` holds the bytes in front of
-- `bufpos`, which is its length. BUFSIZ of the C library, the processing of a request, the KRB-ERROR
-- for what cannot be processed and the one that rejects an extension are parameters; so is what a
-- read gives: the bytes that recv or recvfrom has stored, or none where it fails. Sending does not
-- change a socket.
pub mod Framing
pub mod Stream
pub mod Bounds
pub mod Overrun
use shishi.Base.{
  ℕ, ◌+◌, ◌-◌, ◌%◌, ◌^◌, Bool, true, false, ◌&&◌, List, [], ◌∷◌, ◌++◌, Option, none, some, Bytes,
  length, take, drop, ltb, leb, ◌==◌, if◌then◌else◌,
}
use shishi.Wire.{masked32, be32}

pub data SockType : Type 0 where
  sock_dgram sock_stream : SockType

-- struct listenspec, of a socket that requests are read from
pub record Socket : Type 0 where
  pub socktype : SockType
  pub buf : Bytes

-- What a turn comes to. The socket is closed, or the buffer overrun; else it is as it is afterwards.
-- The bytes are what is sent, if anything is.
pub data Turn : Type 0 where
  closed : Option Bytes → Turn
  overrun : Turn
  served : Option Bytes → Socket → Turn

abbrev pub is_dgram : SockType → Bool
is_dgram sock_dgram = true
is_dgram sock_stream = false

-- `none` is -1. A stream that gives no bytes has been disconnected.
unfoldable pub kdc_read : Socket → Option Bytes → Option Socket
kdc_read ls none = none
kdc_read ls (some []) = if is_dgram ls.socktype then some ls else none
kdc_read ls (some (c ∷ bytes)) = some (record ls { buf = ls.buf ++ c ∷ bytes })

-- C2I in an int, which is converted to size_t
abbrev pub size_of_int : ℕ → ℕ
size_of_int w = if ltb w (2 ^ 31) then w else w + (2 ^ 64 - 2 ^ 32)

unfoldable pub wait_for : Bytes → ℕ
unfolding masked32
wait_for (p0 ∷ p1 ∷ p2 ∷ p3 ∷ rest) = size_of_int (masked32 p0 p1 p2 p3)
wait_for _ = 4

unfoldable pub kdc_ready : Socket → Bool
unfolding wait_for
kdc_ready ls =
    if is_dgram ls.socktype && ltb 0 (length ls.buf)
    then true
    else ltb 4 (length ls.buf) && ((wait_for ls.buf + 4) % 2 ^ 64 == length ls.buf)

-- `bufpos == 4 && buf[0] & 0x80`
abbrev pub is_extension : Bytes → Bool
is_extension (p0 ∷ p1 ∷ p2 ∷ p3 ∷ []) = leb 0x80 p0
is_extension _ = false

-- The four bytes of the length in front of a reply; one that does not fit is cut.
unfoldable pub framed : ℕ → Bytes → Bytes
framed bufsiz reply =
    let n = if leb bufsiz (length reply + 4) then bufsiz - 4 else length reply in
    be32 n (take n reply)

-- kdc_send: what is sent. Afterwards `bufpos` is 0.
unfoldable pub kdc_send : ℕ → Socket → Bytes
unfolding framed
kdc_send bufsiz ls = if is_dgram ls.socktype then ls.buf else framed bufsiz ls.buf

-- The request in the buffer
unfoldable pub request_of : Socket → Bytes
request_of ls = if is_dgram ls.socktype then ls.buf else drop 4 ls.buf

-- What stands in the buffer for what process returns: `plen <= 0` is none or no bytes.
abbrev pub reply_or : Bytes → Option Bytes → Bytes
reply_or fatal_krberror none = fatal_krberror
reply_or fatal_krberror (some []) = fatal_krberror
reply_or fatal_krberror (some (c ∷ bytes)) = c ∷ bytes

-- What a later turn comes to, behind one that has sent a reply
abbrev pub sent_before : Bytes → Option (List Bytes × Socket) → Option (List Bytes × Socket)
sent_before sent none = none
sent_before sent (some (more, ls)) = some (sent ∷ more, ls)

-- BUFSIZ, process of src/kdc.c, and the KRB-ERRORs for what cannot be processed and for an extension
pub record Kdc : Type 0 where
  pub bufsiz : ℕ
  pub process : Bytes → Option Bytes
  pub fatal_krberror : Bytes
  pub rejection : Option Bytes

module _ (kdc : Kdc) where
  -- kdc_extension_reject, as the bytes that are sent in front of -1. A KRB-ERROR that cannot be made
  -- gives a return code above 0, which kdc_loop takes for no extension; the outer none is that.
  unfoldable pub kdc_extension_reject : Option (Option Bytes)
  kdc_extension_reject = elim kdc.rejection [
    | none ↦ none
    | some der ↦ some (if leb kdc.bufsiz (length der) then none else some der)
  ]

  unfoldable pub kdc_extension : Socket → Option (Option Bytes)
  unfolding kdc_extension_reject
  kdc_extension ls =
      if is_dgram ls.socktype
      then none
      else if is_extension ls.buf
      then kdc_extension_reject
      else none

  -- The socket with the reply in its buffer; none is an overrun.
  unfoldable pub kdc_process : Socket → Option Socket
  unfolding request_of
  kdc_process ls =
      let reply = reply_or kdc.fatal_krberror (kdc.process (request_of ls)) in
      if leb (length reply) kdc.bufsiz then some (record ls { buf = reply }) else none

  unfoldable pub answered : Option Socket → Turn
  unfolding kdc_send
  answered none = overrun
  answered (some ls) = served (some (kdc_send kdc.bufsiz ls)) (record ls { buf = [] })

  -- What follows kdc_extension
  unfoldable pub extended : Socket → Option (Option Bytes) → Turn
  unfolding answered kdc_process kdc_ready
  extended ls (some sent) = closed sent
  extended ls none = if kdc_ready ls then answered (kdc_process ls) else served none ls

  -- What follows kdc_read
  unfoldable pub after_read : Option Socket → Turn
  unfolding extended kdc_extension
  after_read none = closed none
  after_read (some ls) = extended ls (kdc_extension ls)

  -- The turn of kdc_loop for a socket that is set, which is not listening for connections
  unfoldable pub serve : Socket → Option Bytes → Turn
  unfolding after_read kdc_read
  serve ls received = after_read (kdc_read ls received)

  -- Several turns of one socket, and what they send; none where it is closed, or overrun.
  unfoldable pub then_serve :
      (Socket → Option (List Bytes × Socket)) → Turn → Option (List Bytes × Socket)
  then_serve again (closed sent) = none
  then_serve again overrun = none
  then_serve again (served none ls) = again ls
  then_serve again (served (some sent) ls) = sent_before sent (again ls)

  unfoldable pub serve_all : List Bytes → Socket → Option (List Bytes × Socket)
  unfolding then_serve serve
  serve_all [] ls = some ([], ls)
  serve_all (bytes ∷ chunks) ls = then_serve (serve_all chunks) (serve ls (some bytes))
