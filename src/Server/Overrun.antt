-- ===== src/Server/Overrun.antt =====
-- When the buffer of a socket is overrun, and when it is stuck.
use shishi.Base.{
  ℕ, ◌+◌, ◌≤◌, ◌<◌, ◌^◌, ◌%◌, false, ◌&&◌, List, [], ◌∷◌, ◌++◌, none, some, Bytes, length, ltb,
  ◌==◌, if◌then◌else◌, ◌≡◌, ◌≢◌, All, append-nil, ◌↔◌, refl, sym, ap, ◌∙◌, arith, length-append,
  append_assoc, lt→leb_false, Bool-cases, inl, inr,
}
use shishi.Wire.{be32}
use shishi.Server.{
  Kdc, overrun, served, kdc_read, kdc_ready, kdc_extension, kdc_extension_reject, kdc_process,
  reply_or, answered, extended, after_read, serve, then_serve, serve_all, is_extension, wait_for,
}
use shishi.Server.Stream.{concat, waits, answering, answers}
use shishi.Server.Framing.{stream, wait_for-be32}

module _ (kdc : Kdc) where
  module _ (n : ℕ) (body : Bytes) (e : length body ≡ n) (p : 0 < n) (h : n < 2 ^ 31) where
    -- What does not end a request only fills the buffer.
    fills :
        (chunks : List Bytes) (part rest : Bytes)
        → All (λ c. c ≢ []) chunks
        → rest ≢ []
        → part ++ (concat chunks ++ rest) ≡ be32 n body
        → serve_all kdc chunks (stream part) ≡ some ([], stream (part ++ concat chunks))
    unfolding serve_all then_serve serve kdc_read
    fills [] part rest ds r q = ap (λ b. some ([], stream b)) (sym (append-nil part))
    fills ([] ∷ chunks) part rest (d, ds) r q = absurd (d refl)
    fills ((c ∷ cs) ∷ chunks) part rest (d, ds) r q =
        let whole : (part ++ c ∷ cs) ++ (concat chunks ++ rest) ≡ be32 n body =
          append_assoc part (c ∷ cs) (concat chunks ++ rest)
          ∙ (ap (λ l. part ++ l) (sym (append_assoc (c ∷ cs) (concat chunks) rest)) ∙ q) in
        ap (then_serve kdc (serve_all kdc chunks)) (
          waits kdc n body e p h (part ++ c ∷ cs) (concat chunks ++ rest)
            (behind (concat chunks) rest r) whole)
        ∙ fills chunks (part ++ c ∷ cs) rest ds r whole
        ∙ ap (λ b. some ([], stream b)) (append_assoc part (c ∷ cs) (concat chunks))
      where
        behind : (front rest : Bytes) → rest ≢ [] → front ++ rest ≢ []
        behind [] rest r z = r z
        behind (a ∷ front) rest r z = cc

    overruns :
        (buf : Bytes)
        → buf ≡ be32 n body
        → kdc.bufsiz < length (reply_or kdc.fatal_krberror (kdc.process body))
        → after_read kdc (some (stream buf)) ≡ overrun
    unfolding after_read extended answered
    overruns buf q too_long =
        answering kdc n body e p h buf q
        ∙ ap
            (λ b.
              answered kdc (
                if b then some (stream (reply_or kdc.fatal_krberror (kdc.process body))) else none))
            (lt→leb_false (length (reply_or kdc.fatal_krberror (kdc.process body))) kdc.bufsiz
              too_long)

  -- While a request is read over a stream, in pieces that are not empty, nothing is sent; the turn
  -- that reads its last piece overruns the buffer exactly where the reply is longer than the
  -- buffer.
  pub serve-overrun_iff :
      (body : Bytes) (front : List Bytes) (last : Bytes)
      → 0 < length body
      → length body < 2 ^ 31
      → All (λ c. c ≢ []) front
      → last ≢ []
      → concat front ++ last ≡ be32 (length body) body
      → (serve_all kdc front (stream []) ≡ some ([], stream (concat front)))
        × ((serve kdc (stream (concat front)) (some last) ≡ overrun)
            ↔ (kdc.bufsiz < length (reply_or kdc.fatal_krberror (kdc.process body))))
  unfolding serve kdc_read
  serve-overrun_iff body front [] p h ds d q = absurd (d refl)
  serve-overrun_iff body front (c ∷ cs) p h ds d q =
      let reply = reply_or kdc.fatal_krberror (kdc.process body) in
      let turn = after_read kdc (some (stream (concat front ++ c ∷ cs))) in
      let there : turn ≡ overrun → kdc.bufsiz < length reply = λ o.
        elim (Bool-cases (ltb kdc.bufsiz (length reply))) [
          | inl t ↦ ground arith
          | inr t ↦
              let fits : length reply ≤ kdc.bufsiz = ground arith in
              let sent = answers kdc (length body) body refl p h (concat front ++ c ∷ cs) q fits in
              absurd (cc)
        ] in
      (
        fills (length body) body refl p h front [] (c ∷ cs) ds d q,
        (there, λ t. overruns (length body) body refl p h (concat front ++ c ∷ cs) q t),
      )

  -- A buffer that holds a whole request and more
  module _ (n : ℕ) (body : Bytes) (h : n < 2 ^ 31) (e : length body ≡ n) where
    is_extension-held :
        (body : Bytes) (c : ℕ) (more : Bytes) → is_extension (be32 n (body ++ c ∷ more)) ≡ false
    is_extension-held [] c more = refl
    is_extension-held (b ∷ body) c more = refl

    beyond : (w m : ℕ) → w ≡ n → n + 4 < m → (ltb 4 m && ((w + 4) % 2 ^ 64 == m)) ≡ false
    beyond w m p q = ground arith

    kdc_ready-held : (c : ℕ) (more : Bytes) → kdc_ready (stream (be32 n body ++ c ∷ more)) ≡ false
    unfolding kdc_ready
    kdc_ready-held c more =
        beyond (wait_for (be32 n (body ++ c ∷ more))) (length (be32 n (body ++ c ∷ more)))
          (wait_for-be32 n (body ++ c ∷ more) h) (omega (arith, length-append body (c ∷ more), e))

    stuck_waits :
        (c : ℕ) (more : Bytes)
        → after_read kdc (some (stream (be32 n body ++ c ∷ more)))
          ≡ served none (stream (be32 n body ++ c ∷ more))
    unfolding after_read extended kdc_extension
    stuck_waits c more =
        let ls = stream (be32 n body ++ c ∷ more) in
        ap (λ b. extended kdc ls (if b then kdc_extension_reject kdc else none))
          (is_extension-held body c more)
        ∙ ap (λ b. if b then answered kdc (kdc_process kdc ls) else served none ls)
            (kdc_ready-held c more)

    -- Where a stream's buffer holds a whole request and more, no request is answered any more: what is
    -- read next, in pieces that are not empty, is only added to the buffer.
    pub serve_all-stuck :
        (chunks : List Bytes) (c : ℕ) (more : Bytes)
        → All (λ d. d ≢ []) chunks
        → serve_all kdc chunks (stream (be32 n body ++ c ∷ more))
          ≡ some ([], stream ((be32 n body ++ c ∷ more) ++ concat chunks))
    unfolding serve_all then_serve serve kdc_read
    serve_all-stuck [] c more h =
        ap (λ b. some ([], stream b)) (sym (append-nil (be32 n body ++ c ∷ more)))
    serve_all-stuck ([] ∷ chunks) c more (h, hs) = absurd (h refl)
    serve_all-stuck ((d ∷ bytes) ∷ chunks) c more (h, hs) =
        let again = then_serve kdc (serve_all kdc chunks) in
        let joined = append_assoc (be32 n body) (c ∷ more) (d ∷ bytes) in
        ap (λ b. again (after_read kdc (some (stream b)))) joined
        ∙ ap again (stuck_waits c (more ++ d ∷ bytes))
        ∙ serve_all-stuck chunks c (more ++ d ∷ bytes) hs
        ∙ ap (λ b. some ([], stream b))
            (ap (λ b. b ++ concat chunks) (sym joined)
              ∙ append_assoc (be32 n body ++ c ∷ more) (d ∷ bytes) (concat chunks))
