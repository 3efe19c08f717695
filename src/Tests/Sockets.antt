-- ===== src/Tests/Sockets.antt =====
-- A KDC that sends each request back: runs of Server.
use shishi.Base.{List, [], ◌∷◌, some, none, Bytes, ◌≡◌, ◌↔◌, ◌<◌, refl, arith}
use shishi.Server.{
  Kdc, Socket, sock_dgram, serve, serve_all, overrun, kdc_read, after_read, extended, kdc_extension,
  kdc_ready, kdc_process, request_of, answered,
}
use shishi.Server.Framing.{stream}
use shishi.Server.Stream.{Request}
use shishi.Server.Bounds.{TurnFits, serve-TurnFits}
use shishi.Server.Overrun.{serve-overrun_iff, serve_all-stuck}

abbrev echo : Kdc
echo = record {
  bufsiz = 8;
  process = λ request. some (9 ∷ request);
  fatal_krberror = 1 ∷ [];
  rejection = none;
}

abbrev datagram : Socket
datagram = record { socktype = sock_dgram; buf = [] }

serve-TurnFits_example : TurnFits echo (serve echo (stream (0 ∷ 0 ∷ [])) (some (0 ∷ 1 ∷ 7 ∷ [])))
serve-TurnFits_example =
    serve-TurnFits echo (stream (0 ∷ 0 ∷ [])) (some (0 ∷ 1 ∷ 7 ∷ [])) (omega arith) (omega arith)
      (omega arith)

abbrev requests : List Request
requests =
    record { body = 5 ∷ 6 ∷ []; chunks = (0 ∷ 0 ∷ []) ∷ (0 ∷ 2 ∷ 5 ∷ []) ∷ (6 ∷ []) ∷ [] }
    ∷ record { body = 7 ∷ []; chunks = (0 ∷ 0 ∷ 0 ∷ 1 ∷ 7 ∷ []) ∷ [] }
    ∷ []

abbrev long_request : Bytes
long_request = 1 ∷ 2 ∷ 3 ∷ 4 ∷ 5 ∷ 6 ∷ 7 ∷ 8 ∷ []

long_request_overruns : serve echo datagram (some long_request) ≡ overrun
unfolding serve after_read extended kdc_extension kdc_ready kdc_process request_of answered kdc_read
long_request_overruns = refl

serve-overrun_iff_example :
    (serve_all echo ((0 ∷ 0 ∷ []) ∷ (0 ∷ 8 ∷ 1 ∷ []) ∷ []) (stream [])
      ≡ some ([], stream (0 ∷ 0 ∷ 0 ∷ 8 ∷ 1 ∷ [])))
    × ((serve echo (stream (0 ∷ 0 ∷ 0 ∷ 8 ∷ 1 ∷ [])) (some (2 ∷ 3 ∷ 4 ∷ 5 ∷ 6 ∷ 7 ∷ 8 ∷ []))
          ≡ overrun)
        ↔ (8 < 9))
serve-overrun_iff_example =
    serve-overrun_iff echo long_request ((0 ∷ 0 ∷ []) ∷ (0 ∷ 8 ∷ 1 ∷ []) ∷ [])
      (2 ∷ 3 ∷ 4 ∷ 5 ∷ 6 ∷ 7 ∷ 8 ∷ []) (omega arith) (omega arith) (cc, (cc, tt)) (cc) refl

serve_all-stuck_example :
    serve_all echo ((1 ∷ []) ∷ (2 ∷ []) ∷ []) (stream (0 ∷ 0 ∷ 0 ∷ 1 ∷ 7 ∷ 9 ∷ []))
    ≡ some ([], stream (0 ∷ 0 ∷ 0 ∷ 1 ∷ 7 ∷ 9 ∷ 1 ∷ 2 ∷ []))
serve_all-stuck_example =
    serve_all-stuck echo 1 (7 ∷ []) (omega arith) refl ((1 ∷ []) ∷ (2 ∷ []) ∷ []) 9 []
      (cc, (cc, tt))
