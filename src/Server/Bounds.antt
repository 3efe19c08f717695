-- ===== src/Server/Bounds.antt =====
-- The buffer of a socket: how far it is filled.
use shishi.Base.{
  ℕ, zero, suc, ◌+◌, ◌-◌, ◌≤◌, Bool, true, false, [], ◌∷◌, ◌++◌, Option, none, some, Bytes, length,
  take, leb, if◌then◌else◌, ◌≡◌, refl, arith, length-append, Bool-cases, inl, inr,
}
use mathlib.Core.Path.{subst}
use shishi.Server.{
  Kdc, Socket, Turn, closed, overrun, served, kdc_read, kdc_ready, kdc_extension,
  kdc_extension_reject, kdc_process, kdc_send, framed, request_of, reply_or, answered, extended,
  after_read, serve, is_extension, is_dgram,
}

module _ (kdc : Kdc) where
  abbrev pub IsFitting : Socket → Type 0
  IsFitting ls = length ls.buf ≤ kdc.bufsiz

  -- What recv gives fits the room that is left.
  abbrev pub HasRoom : Socket → Option Bytes → Type 0
  HasRoom ls none = Unit {0}
  HasRoom ls (some bytes) = length ls.buf + length bytes ≤ kdc.bufsiz

  abbrev pub IsSentFitting : Option Bytes → Type 0
  IsSentFitting none = Unit {0}
  IsSentFitting (some sent) = length sent ≤ kdc.bufsiz

  abbrev pub TurnFits : Turn → Type 0
  TurnFits (closed sent) = IsSentFitting sent
  TurnFits overrun = Unit {0}
  TurnFits (served sent ls) = IsSentFitting sent × IsFitting ls

  framed_bounds : (reply : Bytes) → 4 ≤ kdc.bufsiz → length (framed kdc.bufsiz reply) ≤ kdc.bufsiz
  unfolding framed
  framed_bounds reply h = elim (Bool-cases (leb kdc.bufsiz (length reply + 4))) [
    | inl e ↦ rw (e, framed) (omega (arith, length-take_le (kdc.bufsiz - 4) reply))
    | inr e ↦ rw (e, framed) (ground (arith, length-take_le (length reply) reply))
  ]
    where
      length-take_le : (n : ℕ) (xs : Bytes) → length (take n xs) ≤ n
      length-take_le zero xs = omega arith
      length-take_le (suc n) [] = omega arith
      length-take_le (suc n) (x ∷ xs) = omega (arith, length-take_le n xs)

  kdc_read-fits :
      (ls ls' : Socket) (received : Option Bytes)
      → IsFitting ls
      → HasRoom ls received
      → kdc_read ls received ≡ some ls'
      → IsFitting ls'
  unfolding kdc_read
  kdc_read-fits ls ls' none h r e = cc
  kdc_read-fits ls ls' (some []) h r e = ground arith
  kdc_read-fits ls ls' (some (c ∷ bytes)) h r e =
      let q : record ls { buf = ls.buf ++ c ∷ bytes } ≡ ls' = cc in
      subst IsFitting q (omega (arith, length-append ls.buf (c ∷ bytes)))

  answered-fits : (ls : Socket) → 4 ≤ kdc.bufsiz → TurnFits (answered kdc (kdc_process kdc ls))
  unfolding answered kdc_process kdc_send
  answered-fits ls h = go reply (leb (length reply) kdc.bufsiz) refl
    where
      reply : Bytes
      reply = reply_or kdc.fatal_krberror (kdc.process (request_of ls))

      sent :
          (r : Bytes) (d : Bool)
          → length r ≤ kdc.bufsiz
          → length (if d then r else framed kdc.bufsiz r) ≤ kdc.bufsiz
      sent r true g = g
      sent r false g = framed_bounds r h

      go :
          (r : Bytes) (b : Bool)
          → leb (length r) kdc.bufsiz ≡ b
          → TurnFits (answered kdc (if b then some (record ls { buf = r }) else none))
      go r true e = (sent r (is_dgram ls.socktype) (ground arith), omega arith)
      go r false e = tt

  -- A turn keeps the bytes in front of `bufpos` within the buffer, and sends no more than a buffer,
  -- unless it overruns the buffer, when recv gives no more than it has room for.
  pub serve-TurnFits :
      (ls : Socket) (received : Option Bytes)
      → 4 ≤ kdc.bufsiz
      → IsFitting ls
      → HasRoom ls received
      → TurnFits (serve kdc ls received)
  unfolding serve after_read extended kdc_extension kdc_extension_reject
  serve-TurnFits ls received h f r = go (kdc_read ls received) refl
    where
      by_ready :
          (ls' : Socket)
          → IsFitting ls'
          → (b : Bool)
          → TurnFits (if b then answered kdc (kdc_process kdc ls') else served none ls')
      by_ready ls' g true = answered-fits ls' h
      by_ready ls' g false = (tt, g)

      rejected :
          (ls' : Socket) (der : Bytes) (b : Bool)
          → leb kdc.bufsiz (length der) ≡ b
          → TurnFits (extended kdc ls' (some (if b then none else some der)))
      rejected ls' der true e = tt
      rejected ls' der false e = ground arith

      by_extension :
          (ls' : Socket)
          → IsFitting ls'
          → (d i : Bool) (r : Option Bytes)
          → TurnFits (
              extended kdc ls' (
                if d
                then none
                else if i
                then (elim r [
                  | none ↦ none
                  | some der ↦ some (if leb kdc.bufsiz (length der) then none else some der)
                ])
                else none))
      by_extension ls' g true i r = by_ready ls' g (kdc_ready ls')
      by_extension ls' g false false r = by_ready ls' g (kdc_ready ls')
      by_extension ls' g false true none = by_ready ls' g (kdc_ready ls')
      by_extension ls' g false true (some der) = rejected ls' der (leb kdc.bufsiz (length der)) refl

      go : (o : Option Socket) → kdc_read ls received ≡ o → TurnFits (after_read kdc o)
      go none e = tt
      go (some ls') e =
          by_extension ls' (kdc_read-fits ls ls' received f r e) (is_dgram ls'.socktype)
            (is_extension ls'.buf) kdc.rejection
