-- ===== src/WebSocket/Receive/Frames.antt =====
-- src/uv_net/websocket_connection.cpp: the reads of an open connection, by what the parser alone
-- makes of them.
use libuv_server.Prelude.{
  ℕ, zero, suc, ◌≡◌, refl, sym, ap, ◌∙◌, Option, none, some, List, [], ◌∷◌, ◌++◌, append_assoc,
  append-nil, arith, Bytes, Option-cases, inl, inr,
}
use libuv_server.Uv.{Uv}
use libuv_server.Tcp.State.{TcpServer}
use libuv_server.WebSocket.Parser.{Parser, Message, round}
use libuv_server.WebSocket.Parser.Loop.{parse_loop}
use libuv_server.WebSocket.Parser.Payload.{feed}
use libuv_server.WebSocket.Connection.{WebSocketConnection}
use libuv_server.WebSocket.Receive.{process_frame, parse_frame}
use libuv_server.WebSocket.Receive.Separate.{with_parser, process_frame-with_parser}

-- `ParseFrame` for one read after the other.
unfoldable pub parse_frames :
    Uv → TcpServer → WebSocketConnection → List Bytes → Option WebSocketConnection
parse_frames uv server c [] = some c
parse_frames uv server c (bytes ∷ rest) = elim (parse_frame uv server c bytes) [
  | none ↦ none
  | some c' ↦ parse_frames uv server c' rest
]

-- The handler that keeps the frames.
abbrev pub keep : Message → List Message → List Message
keep m ms = ms ++ m ∷ []

-- What a connection does with frames, in order.
unfoldable pub process_all :
    Uv → TcpServer → List Message → WebSocketConnection → WebSocketConnection
process_all uv server [] c = c
process_all uv server (m ∷ ms) c = process_all uv server ms (process_frame uv server m c)

module _ (uv : Uv) (server : TcpServer) where
  process_all-append :
      (ms ns : List Message) (c : WebSocketConnection)
      → process_all uv server (ms ++ ns) c ≡ process_all uv server ns (process_all uv server ms c)
  unfolding process_all
  process_all-append [] ns c = refl
  process_all-append (m ∷ ms) ns c = process_all-append ms ns (process_frame uv server m c)

  process_all-with_parser :
      (p : Parser) (ms : List Message) (c : WebSocketConnection)
      → process_all uv server ms (with_parser p c) ≡ with_parser p (process_all uv server ms c)
  unfolding process_all
  process_all-with_parser p [] c = refl
  process_all-with_parser p (m ∷ ms) c =
      ap (process_all uv server ms) (process_frame-with_parser p uv server m c)
      ∙ process_all-with_parser p ms (process_frame uv server m c)

  -- The loop on a connection hands over what it hands to the handler that keeps it.
  parse_loop-keep :
      (fuel : ℕ) (p p' : Parser) (ms ms' : List Message) (c : WebSocketConnection) (rest : Bytes)
      → parse_loop keep fuel p ms rest ≡ some (p', ms')
      → (new : List Message) × (ms' ≡ ms ++ new)
        × (parse_loop (process_frame uv server) fuel p c rest
            ≡ some (p', process_all uv server new c))
  unfolding parse_loop process_all
  parse_loop-keep zero p p' ms ms' c rest e = cc
  parse_loop-keep (suc fuel) p p' ms ms' c [] e = ([], ground (arith, append-nil ms), ground arith)
  parse_loop-keep (suc fuel) p p' ms ms' c (b ∷ rest) e =
      elim (Option-cases (round p (b ∷ rest)).frame) [
        | inl n ↦ rw n (
            parse_loop-keep fuel (round p (b ∷ rest)).parser p' ms ms' c (round p (b ∷ rest)).rest
              (rw n at e))
        | inr (m, n) ↦
            let (new, more, ran) =
              parse_loop-keep fuel (round p (b ∷ rest)).parser p' (keep m ms) ms'
                (process_frame uv server m c) (round p (b ∷ rest)).rest (rw n at e) in
            (m ∷ new, more ∙ append_assoc ms (m ∷ []) new, rw n ran)
      ]

  parse_frames-step :
      (c d : WebSocketConnection) (q : Parser) (bytes : Bytes) (reads : List Bytes)
      → parse_loop (process_frame uv server) 4 c.parser c bytes ≡ some (q, d)
      → parse_frames uv server c (bytes ∷ reads) ≡ parse_frames uv server (with_parser q d) reads
  unfolding parse_frames parse_frame
  parse_frames-step c d q bytes reads e = rw (e, parse_frames, parse_frame) refl

  -- What the reads do to a connection is what the parser alone makes of them: whatever the frames
  -- ask for, it processes them in the order in which the parser completes them, and its parser is
  -- where the parser alone would be.
  pub parse_frames-feed :
      (reads : List Bytes) (p : Parser) (ms ms' : List Message) (c : WebSocketConnection)
      → feed keep c.parser ms reads ≡ some (p, ms')
      → (new : List Message) × (ms' ≡ ms ++ new)
        × (parse_frames uv server c reads ≡ some (with_parser p (process_all uv server new c)))
  unfolding feed parse_frames process_all
  parse_frames-feed [] p ms ms' c e = ([], ground (arith, append-nil ms), ground arith)
  parse_frames-feed (bytes ∷ reads) p ms ms' c e =
      elim (Option-cases (parse_loop keep 4 c.parser ms bytes)) [
        | inl n ↦ let e' = rw (n, feed) at e in cc
        | inr ((q, ns), n) ↦
            let (new, more, ran) = parse_loop-keep 4 c.parser q ms ns c bytes n in
            let (rest, all, done) =
              parse_frames-feed reads p ns ms' (with_parser q (process_all uv server new c))
                (rw (n, feed) at e) in
            (
              new ++ rest,
              all ∙ ap (λ l. l ++ rest) more ∙ append_assoc ms new rest,
              parse_frames-step c _ q bytes reads ran
                  ∙ done
                  ∙ ap (λ d. some (with_parser p d))
                      (process_all-with_parser q rest (process_all uv server new c)
                        ∙ ap (with_parser q) (sym (process_all-append new rest c))),
            )
      ]
