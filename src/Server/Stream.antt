-- ===== src/Server/Stream.antt =====
-- Requests over a stream, in whatever pieces they arrive.
use shishi.Base.{
  ℕ, ◌≤◌, ◌<◌, ◌^◌, false, List, [], ◌∷◌, ◌++◌, Option, none, some, Bytes, All, length, drop, leb,
  ◌==◌, if◌then◌else◌, ◌≡◌, ◌≢◌, refl, ap, ◌∙◌, arith, append-nil, le→leb,
}
use shishi.Wire.{be32}
use shishi.Server.{
  Kdc, Socket, served, kdc_extension, kdc_process, kdc_send, framed, request_of, reply_or, answered,
  extended, after_read, serve_all,
}
use shishi.Server.Framing.{stream, kdc_ready-part, is_extension-part}

abbrev pub concat : List Bytes → Bytes
concat [] = []
concat (bytes ∷ chunks) = bytes ++ concat chunks

-- A request, and the pieces in which its frame is read, none of which is empty
pub record Request : Type 0 where
  pub body : Bytes
  pub chunks : List Bytes

pub record IsSent (r : Request) : Type 0 where
  pub some_body : 0 < length r.body
  pub body_fits : length r.body < 2 ^ 31
  pub whole : concat r.chunks ≡ be32 (length r.body) r.body
  pub pieces : All (λ c. c ≢ []) r.chunks

abbrev pub all_chunks : List Request → List Bytes
all_chunks [] = []
all_chunks (r ∷ rs) = r.chunks ++ all_chunks rs

module _ (kdc : Kdc) where
  -- What the request is answered with
  abbrev pub reply_to : Request → Bytes
  reply_to r = reply_or kdc.fatal_krberror (kdc.process r.body)

  abbrev pub framed_replies : List Request → List Bytes
  framed_replies [] = []
  framed_replies (r ∷ rs) = framed kdc.bufsiz (reply_to r) ∷ framed_replies rs

  module _ (n : ℕ) (body : Bytes) (e : length body ≡ n) (p : 0 < n) (h : n < 2 ^ 31) where
    no_extension :
        (part rest : Bytes) → part ++ rest ≡ be32 n body → kdc_extension kdc (stream part) ≡ none
    unfolding kdc_extension
    no_extension part rest q = rw (is_extension-part n body part rest h q) refl

    -- A turn before the last one only fills the buffer.
    pub waits :
        (buf rest : Bytes)
        → rest ≢ []
        → buf ++ rest ≡ be32 n body
        → after_read kdc (some (stream buf)) ≡ served none (stream buf)
    unfolding after_read extended
    waits buf rest r q =
        let next = answered kdc (kdc_process kdc (stream buf)) in
        ap (extended kdc (stream buf)) (no_extension buf rest q)
        ∙ ap (λ b. if b then next else served none (stream buf))
            (kdc_ready-part n body buf rest e p h q ∙ left rest r)
      where
        left : (rest : Bytes) → rest ≢ [] → (length rest == 0) ≡ false
        left [] r = absurd (r refl)
        left (c ∷ rest) r = ground arith

    -- The last turn makes the reply.
    pub answering :
        (buf : Bytes)
        → buf ≡ be32 n body
        → after_read kdc (some (stream buf))
          ≡ answered kdc (
              if leb (length (reply_or kdc.fatal_krberror (kdc.process body))) kdc.bufsiz
              then some (stream (reply_or kdc.fatal_krberror (kdc.process body)))
              else none)
    unfolding after_read extended kdc_process request_of
    answering buf q =
        let whole : buf ++ [] ≡ be32 n body = append-nil buf ∙ q in
        ap (extended kdc (stream buf)) (no_extension buf [] whole)
        ∙ ap
            (λ b.
              if b then answered kdc (kdc_process kdc (stream buf)) else served none (stream buf))
            (kdc_ready-part n body buf [] e p h whole)
        ∙ ap (λ request. answered kdc (fitted (reply_or kdc.fatal_krberror (kdc.process request))))
            (ap (drop 4) q)
      where
        fitted : Bytes → Option Socket
        fitted reply = if leb (length reply) kdc.bufsiz then some (stream reply) else none

    -- The last turn answers.
    pub answers :
        (buf : Bytes)
        → buf ≡ be32 n body
        → length (reply_or kdc.fatal_krberror (kdc.process body)) ≤ kdc.bufsiz
        → after_read kdc (some (stream buf))
          ≡ served
              (some (framed kdc.bufsiz (reply_or kdc.fatal_krberror (kdc.process body))))
              (stream [])
    unfolding answered kdc_send
    answers buf q f =
        let reply = reply_or kdc.fatal_krberror (kdc.process body) in
        answering buf q
        ∙ ap (λ b. answered kdc (if b then some (stream reply) else none))
            (le→leb (length reply) kdc.bufsiz f)

  -- What turns that end in `t` send stands in front of what those that follow send.
  abbrev Joins : (xs ys : List Bytes) (t u : Socket) (more : List Bytes) → Type 0
  Joins xs ys t u more =
      (v : Socket) (w : List Bytes)
      → serve_all kdc xs v ≡ some (w, t)
      → serve_all kdc (xs ++ ys) v ≡ some (w ++ more, u)
