-- ===== src/WebSocket/Receive/Empty.antt =====
-- src/uv_net/websocket_connection.cpp: frames with no payload. The loop of `ParseFrame` ends with the
-- bytes of the read, before the case that would complete such a frame.
use libuv_server.Prelude.{
  ℕ, zero, suc, Option, none, ◌≡◌, refl, sym, ap, ◌∙◌, bit_and, some, [], ◌∷◌, arith, Bytes,
}
use libuv_server.Uv.{Uv}
use libuv_server.Tcp.State.{TcpServer}
use libuv_server.WebSocket.Parser.{
  Parser, Message, round, initial, round_in, round_header, round_payload, unmask,
}
use libuv_server.WebSocket.Parser.Loop.{parse_loop, dispatch}
use libuv_server.WebSocket.Parser.Aligned.{client_frame, header_short, key_read}
use libuv_server.WebSocket.Parser.Payload.{in_payload, after_round, feed, feed_step}
use libuv_server.WebSocket.Connection.{WebSocketConnection}
use libuv_server.WebSocket.Receive.{process_frame, parse_frame}
use libuv_server.WebSocket.Receive.Frames.{keep, process_all, parse_frames, parse_frames-feed}
use libuv_server.WebSocket.Receive.Separate.{with_parser, process_frame-with_parser}

-- Behind the key of an empty masked frame.
abbrev behind_key : ℕ → Bytes → Parser
behind_key h0 key = in_payload (record (client_frame h0 0) { masking_key = key }) 0 []

module _ {S : Type 0} (handle : Message → S → S) where
  -- A read that begins a frame is taken whole by the second test of the loop.
  first_round :
      (fuel : ℕ) (s : S) (b : ℕ) (rest : Bytes)
      → parse_loop handle (suc (suc (suc fuel))) initial s (b ∷ rest)
        ≡ parse_loop handle (suc (suc fuel)) initial s (b ∷ rest)
  unfolding parse_loop round_in round_header
  first_round fuel s b rest = ground arith

  empty_round :
      (h0 : ℕ) (key : Bytes) (b : ℕ) (rest : Bytes)
      → round_payload (behind_key h0 key) (b ∷ rest) ≡ record {
        parser = initial;
        rest = b ∷ rest;
        frame = some (record { opcode = bit_and h0 0x0f; payload = [] });
      }
  unfolding round_payload unmask
  empty_round h0 key b rest = ground arith

  -- The first byte behind the frame completes it, and begins the next.
  empty_completed :
      (h0 : ℕ) (key : Bytes) (s : S) (b : ℕ) (rest : Bytes)
      → parse_loop handle 4 (behind_key h0 key) s (b ∷ rest)
        ≡ parse_loop handle 4 initial
            (handle (record { opcode = bit_and h0 0x0f; payload = [] }) s)
            (b ∷ rest)
  empty_completed h0 key s b rest =
      unfold parse_loop round_in in
      ap (after_round handle s) (empty_round h0 key b rest) ∙ sym (first_round 1 _ b rest)

module _ (uv : Uv) (server : TcpServer) where
  -- What `ParseFrame` leaves of the result of its loop.
  abbrev left_of : Option (Parser × WebSocketConnection) → Option WebSocketConnection
  left_of r = elim r [ none ↦ none | some (p, c') ↦ some (with_parser p c') ]

  dispatch-with_parser :
      (q : Parser) (frame : Option Message) (c : WebSocketConnection)
      → dispatch (process_frame uv server) frame (with_parser q c)
        ≡ with_parser q (dispatch (process_frame uv server) frame c)
  dispatch-with_parser q none c = refl
  dispatch-with_parser q (some m) c = process_frame-with_parser q uv server m c

  -- The fields of the parser that the connection holds meanwhile play no role.
  parse_loop-with_parser :
      (fuel : ℕ) (p q : Parser) (c : WebSocketConnection) (rest : Bytes)
      → left_of (parse_loop (process_frame uv server) fuel p (with_parser q c) rest)
        ≡ left_of (parse_loop (process_frame uv server) fuel p c rest)
  unfolding parse_loop
  parse_loop-with_parser zero p q c rest = refl
  parse_loop-with_parser (suc fuel) p q c [] = refl
  parse_loop-with_parser (suc fuel) p q c (b ∷ rest) =
      let r = round p (b ∷ rest) in
      ap (λ d. left_of (parse_loop (process_frame uv server) fuel r.parser d r.rest))
        (dispatch-with_parser q r.frame c)
      ∙ parse_loop-with_parser fuel r.parser q (dispatch (process_frame uv server) r.frame c) r.rest

  parse_frame-left_of :
      (p : Parser) (c : WebSocketConnection) (bytes : Bytes)
      → parse_frame uv server (with_parser p c) bytes
        ≡ left_of (parse_loop (process_frame uv server) 4 p c bytes)
  unfolding parse_frame
  parse_frame-left_of p c bytes = parse_loop-with_parser 4 p p c bytes

  empty_frame_read :
      (c : WebSocketConnection) (h0 k0 k1 k2 k3 : ℕ)
      → c.parser ≡ initial
      → parse_frames uv server c ((h0 ∷ 128 ∷ []) ∷ (k0 ∷ k1 ∷ k2 ∷ k3 ∷ []) ∷ [])
        ≡ some (with_parser (behind_key h0 (k0 ∷ k1 ∷ k2 ∷ k3 ∷ [])) c)
  unfolding process_all feed
  empty_frame_read c h0 k0 k1 k2 k3 at =
      let waiting = behind_key h0 (k0 ∷ k1 ∷ k2 ∷ k3 ∷ []) in
      let fed =
        feed_step keep _ _ [] [] _ ((k0 ∷ k1 ∷ k2 ∷ k3 ∷ []) ∷ [])
          (header_short keep h0 0 [] (omega arith))
        ∙ feed_step keep _ _ [] [] _ [] (key_read keep (client_frame h0 0) k0 k1 k2 k3 [] refl) in
      let (new, one, ran) =
        parse_frames-feed uv server ((h0 ∷ 128 ∷ []) ∷ (k0 ∷ k1 ∷ k2 ∷ k3 ∷ []) ∷ []) waiting [] []
          c (rw at fed) in
      ran ∙ ap (λ ms. some (with_parser waiting (process_all uv server ms c))) (sym one)

  -- An empty masked frame of any opcode, a close or a ping among them, whose header and key come in
  -- reads of their own between two frames: the reads return, but nothing is done about the frame, so a
  -- close is not answered and a text not handed over. Only the next read, whatever its bytes, does what
  -- the frame asks for, and goes on with these bytes as those of the next frame.
  pub empty_frame_waits :
      (c : WebSocketConnection) (h0 k0 k1 k2 k3 : ℕ)
      → c.parser ≡ initial
      → (w : WebSocketConnection) × (parse_frames uv server c
            ((h0 ∷ 128 ∷ []) ∷ (k0 ∷ k1 ∷ k2 ∷ k3 ∷ []) ∷ [])
          ≡ some w)
        × (w ≡ with_parser w.parser c)
        × ((b : ℕ) (rest : Bytes)
            → parse_frame uv server w (b ∷ rest)
              ≡ parse_frame uv server
                  (with_parser initial
                    (process_frame uv server (record { opcode = bit_and h0 0x0f; payload = [] }) c))
                  (b ∷ rest))
  empty_frame_waits c h0 k0 k1 k2 k3 at = (
    with_parser (behind_key h0 (k0 ∷ k1 ∷ k2 ∷ k3 ∷ [])) c,
    empty_frame_read c h0 k0 k1 k2 k3 at,
    refl,
    λ b rest.
        let m : Message = record { opcode = bit_and h0 0x0f; payload = [] } in
        parse_frame-left_of (behind_key h0 (k0 ∷ k1 ∷ k2 ∷ k3 ∷ [])) c (b ∷ rest)
        ∙ ap left_of
            (empty_completed (process_frame uv server) h0 (k0 ∷ k1 ∷ k2 ∷ k3 ∷ []) c b rest)
        ∙ sym (parse_frame-left_of initial (process_frame uv server m c) (b ∷ rest)),
  )
