-- ===== src/WebSocket/Rules.antt =====
-- src/uv_net/websocket_connection.cpp: a rule for what `OnDataReceived` keeps.
use libuv_server.Prelude.{
  ℕ, zero, suc, ◌≡◌, refl, ap, Bool, true, ◌||◌, ◌==◌, Option, none, some, List, [], ◌∷◌, ◌++◌,
  arith, to_size, take, Bytes, Option-cases, inl, inr,
}
use mathlib.Core.Option.{some-injective}
use mathlib.Core.Path.{subst}
use libuv_server.Protocol.{ServerProtocol}
use libuv_server.Connection.{Request, send_bytes, close_it}
use libuv_server.Uv.{Uv, message}
use libuv_server.Tcp.State.{TcpServer, peer}
use libuv_server.WebSocket.Parser.{Parser, Message, round}
use libuv_server.WebSocket.Handshake.{handshake_key}
use libuv_server.WebSocket.Parser.Loop.{parse_loop, dispatch}
use libuv_server.WebSocket.Connection.{
  WebSocketConnection, State, in_handshake, in_open, in_closing, in_closed, close, send_frame, send,
  serve,
}
use libuv_server.WebSocket.Receive.{
  on_message, deliver_package, process_text_frame, process_binary_frame, process_close_frame,
  process_ping_frame, process_pong_frame, process_frame, parse_frame, send_handshake_response,
  parse_handshake, receive_handshake, on_data_received_in, on_data_received,
}

-- The opcodes of the frames that a server sends: texts, closes and pongs.
abbrev pub is_sent : ℕ → Bool
is_sent opcode = opcode == 0x01 || (opcode == 0x08 || opcode == 0x0a)

-- Whatever `Close`, `SendFrame`, the call of a callback and the closing state keep, the handling of
-- a frame keeps.
module _ {κ} (uv : Uv) (server : TcpServer) (P : WebSocketConnection → Type κ)
    (keep_close : (c : WebSocketConnection) → P c → P (close c))
    (keep_send_frame : (c : WebSocketConnection) (bytes : Bytes) (opcode : ℕ)
      → is_sent opcode ≡ true
      → P c
      → P (send_frame uv c bytes opcode))
    (keep_message : (c : WebSocketConnection) (bytes : Bytes)
      → P c
      → P (record c { tcp = record (c.tcp) { calls = message bytes ∷ c.tcp.calls } }))
    (keep_closing : (c : WebSocketConnection) → P c → P (record c { state = in_closing })) where
  pub send_rule : (c : WebSocketConnection) (bytes : Bytes) → P c → P (send uv server c bytes)
  unfolding send
  send_rule c bytes v = ground (arith, keep_send_frame c bytes 0x01 refl v)

  pub serve_rule :
      (requests : List Request) (c : WebSocketConnection) → P c → P (serve uv server requests c)
  unfolding serve
  serve_rule [] c v = v
  serve_rule (send_bytes bytes ∷ rest) c v = serve_rule rest _ (send_rule c bytes v)
  serve_rule (close_it ∷ rest) c v = serve_rule rest _ (keep_close c v)

  on_message_rule :
      (c : WebSocketConnection) (bytes : Bytes) → P c → P (on_message uv server c bytes)
  unfolding on_message
  on_message_rule c bytes v = elim (Option-cases server.on_message) [
    | inl e ↦ rw (e, on_message) v
    | inr (callback, e) ↦
        rw (e, on_message) (serve_rule (callback (peer c.tcp) bytes) _ (keep_message c bytes v))
  ]

  deliver_package_rule :
      (protocol : ServerProtocol) (c : WebSocketConnection) (bytes : Bytes)
      → P c
      → P (deliver_package uv server protocol c bytes)
  unfolding deliver_package
  deliver_package_rule protocol c bytes v = ground (
    arith,
    keep_close c v,
    on_message_rule c (take (to_size (protocol.parse_package bytes).package_len) bytes) v,
  )

  process_text_frame_rule :
      (c : WebSocketConnection) (bytes : Bytes) → P c → P (process_text_frame uv server c bytes)
  unfolding process_text_frame
  process_text_frame_rule c bytes v = elim (Option-cases server.server_protocol) [
    | inl e ↦ ground (arith, e, on_message_rule c bytes v)
    | inr (protocol, e) ↦ ground (arith, e, deliver_package_rule protocol c bytes v)
  ]

  process_binary_frame_rule :
      (c : WebSocketConnection) (bytes : Bytes) → P c → P (process_binary_frame uv server c bytes)
  unfolding process_binary_frame
  process_binary_frame_rule c bytes v = elim (Option-cases server.server_protocol) [
    | inl e ↦ ground (arith, e, on_message_rule c bytes v)
    | inr (protocol, e) ↦ ground (arith, e, deliver_package_rule protocol c bytes v)
  ]

  process_close_frame_rule :
      (c : WebSocketConnection) (bytes : Bytes) → P c → P (process_close_frame uv c bytes)
  unfolding process_close_frame
  process_close_frame_rule c bytes v =
      keep_close _ (keep_send_frame _ bytes 0x08 refl (keep_closing c v))

  process_frame_rule :
      (m : Message) (c : WebSocketConnection) → P c → P (process_frame uv server m c)
  unfolding process_frame process_ping_frame process_pong_frame
  process_frame_rule m c v = ground (
    arith,
    process_text_frame_rule c m.payload v,
    process_binary_frame_rule c m.payload v,
    process_close_frame_rule c m.payload v,
    keep_send_frame c m.payload 0x0a refl v,
  )

  dispatch_rule :
      (frame : Option Message) (c : WebSocketConnection)
      → P c
      → P (dispatch (process_frame uv server) frame c)
  dispatch_rule none c v = v
  dispatch_rule (some m) c v = process_frame_rule m c v

  parse_loop_rule :
      (fuel : ℕ) (p : Parser) (c : WebSocketConnection) (rest : Bytes) {p' : Parser}
      {c' : WebSocketConnection}
      → P c
      → parse_loop (process_frame uv server) fuel p c rest ≡ some (p', c')
      → P c'
  unfolding parse_loop
  parse_loop_rule zero p c rest v e = cc
  parse_loop_rule (suc fuel) p c [] {c' = c'} v e = subst P (ap (λ r. r.1) (some-injective _ _ e)) v
  parse_loop_rule (suc fuel) p c (b ∷ rest) v e =
      parse_loop_rule fuel _ _ _ (dispatch_rule (round p (b ∷ rest)).frame c v) e

  module _
      (keep_parser : (c : WebSocketConnection) (p : Parser)
        → P c
        → P (record c { parser = p })) where
    pub parse_frame_rule :
        (c : WebSocketConnection) (bytes : Bytes) {c' : WebSocketConnection}
        → P c
        → parse_frame uv server c bytes ≡ some c'
        → P c'
    unfolding parse_frame
    parse_frame_rule c bytes {c'} v e =
        elim (Option-cases (parse_loop (process_frame uv server) 4 c.parser c bytes)) [
          | inl n ↦ let e' = rw (n, parse_frame) at e in cc
          | inr ((p, d), s) ↦
              subst P (some-injective _ _ (rw (s, parse_frame) at e))
                (keep_parser d p (parse_loop_rule 4 c.parser c bytes {p' = p} {c' = d} v s))
        ]

    -- The bytes of a handshake are collected, and answered once it is complete.
    module _ (sha1 : Bytes → Bytes)
        (keep_handshake : (c : WebSocketConnection) (bytes : Bytes)
          → P c
          → P (record c { handshake_buffer = bytes }))
        (keep_response : (c : WebSocketConnection) (key : Bytes)
          → P c
          → P (send_handshake_response uv sha1 c key)) where
      parse_handshake_rule :
          (c : WebSocketConnection) (text : Bytes) → P c → P (parse_handshake uv sha1 c text).0
      unfolding parse_handshake
      parse_handshake_rule c text v = elim (Option-cases (handshake_key text)) [
        | inl e ↦ rw (e, parse_handshake) v
        | inr (key, e) ↦ rw (e, parse_handshake) (keep_response c key v)
      ]

      receive_handshake_rule :
          (c : WebSocketConnection) (bytes : Bytes) → P c → P (receive_handshake uv sha1 c bytes)
      unfolding receive_handshake
      receive_handshake_rule c bytes v = ground (
        arith,
        keep_handshake c (c.handshake_buffer ++ bytes) v,
        parse_handshake_rule (record c { handshake_buffer = c.handshake_buffer ++ bytes })
            (c.handshake_buffer ++ bytes) (keep_handshake c (c.handshake_buffer ++ bytes) v),
      )

      on_data_received_in_rule :
          (state : State) (c : WebSocketConnection) (bytes : Bytes) {c' : WebSocketConnection}
          → P c
          → on_data_received_in state uv sha1 server c bytes ≡ some c'
          → P c'
      unfolding on_data_received_in
      on_data_received_in_rule in_handshake c bytes v e =
          subst P (some-injective _ _ e) (receive_handshake_rule c bytes v)
      on_data_received_in_rule in_open c bytes v e = parse_frame_rule c bytes v e
      on_data_received_in_rule in_closing c bytes v e = parse_frame_rule c bytes v e
      on_data_received_in_rule in_closed c bytes v e = parse_frame_rule c bytes v e

      pub on_data_received_rule :
          (c : WebSocketConnection) (bytes : Bytes) {c' : WebSocketConnection}
          → P c
          → on_data_received uv sha1 server c bytes ≡ some c'
          → P c'
      on_data_received_rule c bytes v e = on_data_received_in_rule c.state c bytes v e
