-- ===== src/WebSocket/Receive/Separate.antt =====
-- src/uv_net/websocket_connection.cpp: what a frame does to a connection has nothing to do with the
-- state of `ParseFrame`.
use libuv_server.Prelude.{
  ℕ, ◌≡◌, refl, ap, ◌∙◌, take, to_size, List, [], ◌∷◌, arith, Bytes, Option-cases, inl, inr,
}
use libuv_server.Connection.{Request, send_bytes, close_it}
use libuv_server.Uv.{Uv}
use libuv_server.Protocol.{ServerProtocol}
use libuv_server.Tcp.State.{TcpServer, peer}
use libuv_server.WebSocket.Parser.{Parser, Message}
use libuv_server.WebSocket.Connection.{
  WebSocketConnection, in_closing, stop_heartbeat, close, write_front, try_send, send_frame, send,
  serve,
}
use libuv_server.WebSocket.Receive.{
  on_message, deliver_package, process_text_frame, process_binary_frame, process_close_frame,
  process_ping_frame, process_pong_frame, process_frame,
}

module _ (p : Parser) where
  abbrev pub with_parser : WebSocketConnection → WebSocketConnection
  with_parser c = record c { parser = p }

  close-with_parser : (c : WebSocketConnection) → close (with_parser c) ≡ with_parser (close c)
  unfolding close stop_heartbeat
  close-with_parser c = ground arith

  write_front-with_parser :
      (uv : Uv) (queue : List Bytes) (c : WebSocketConnection)
      → write_front uv queue (with_parser c) ≡ with_parser (write_front uv queue c)
  unfolding write_front
  write_front-with_parser uv [] c = refl
  write_front-with_parser uv (front ∷ rest) c = ground arith

  try_send-with_parser :
      (uv : Uv) (c : WebSocketConnection)
      → try_send uv (with_parser c) ≡ with_parser (try_send uv c)
  unfolding try_send
  try_send-with_parser uv c = ground (arith, write_front-with_parser uv c.send_queue c)

  send_frame-with_parser :
      (uv : Uv) (c : WebSocketConnection) (bytes : Bytes) (opcode : ℕ)
      → send_frame uv (with_parser c) bytes opcode ≡ with_parser (send_frame uv c bytes opcode)
  unfolding send_frame
  send_frame-with_parser uv c bytes opcode = try_send-with_parser uv _

  send-with_parser :
      (uv : Uv) (server : TcpServer) (c : WebSocketConnection) (bytes : Bytes)
      → send uv server (with_parser c) bytes ≡ with_parser (send uv server c bytes)
  unfolding send
  send-with_parser uv server c bytes = ground (arith, send_frame-with_parser uv c bytes 1)

module _ (p : Parser) (uv : Uv) (server : TcpServer) where
  serve-with_parser :
      (requests : List Request) (c : WebSocketConnection)
      → serve uv server requests (with_parser p c) ≡ with_parser p (serve uv server requests c)
  unfolding serve
  serve-with_parser [] c = refl
  serve-with_parser (send_bytes bytes ∷ rest) c =
      ap (serve uv server rest) (send-with_parser p uv server c bytes)
      ∙ serve-with_parser rest (send uv server c bytes)
  serve-with_parser (close_it ∷ rest) c =
      ap (serve uv server rest) (close-with_parser p c) ∙ serve-with_parser rest (close c)

  on_message-with_parser :
      (c : WebSocketConnection) (bytes : Bytes)
      → on_message uv server (with_parser p c) bytes ≡ with_parser p (on_message uv server c bytes)
  unfolding on_message
  on_message-with_parser c bytes = elim (Option-cases server.on_message) [
    | inl e ↦ rw (e, on_message) refl
    | inr (callback, e) ↦ rw (e, on_message) (serve-with_parser (callback (peer c.tcp) bytes) _)
  ]

  deliver_package-with_parser :
      (protocol : ServerProtocol) (c : WebSocketConnection) (bytes : Bytes)
      → deliver_package uv server protocol (with_parser p c) bytes
        ≡ with_parser p (deliver_package uv server protocol c bytes)
  unfolding deliver_package
  deliver_package-with_parser protocol c bytes =
      let payload = take (to_size (protocol.parse_package bytes).package_len) bytes in
      ground (arith, on_message-with_parser c payload, close-with_parser p c)

  process_text_frame-with_parser :
      (c : WebSocketConnection) (bytes : Bytes)
      → process_text_frame uv server (with_parser p c) bytes
        ≡ with_parser p (process_text_frame uv server c bytes)
  unfolding process_text_frame
  process_text_frame-with_parser c bytes = elim (Option-cases server.server_protocol) [
    | inl e ↦ rw e (ground (arith, on_message-with_parser c bytes))
    | inr (protocol, e) ↦ rw e (ground (arith, deliver_package-with_parser protocol c bytes))
  ]

  process_binary_frame-with_parser :
      (c : WebSocketConnection) (bytes : Bytes)
      → process_binary_frame uv server (with_parser p c) bytes
        ≡ with_parser p (process_binary_frame uv server c bytes)
  unfolding process_binary_frame process_text_frame
  process_binary_frame-with_parser c bytes = process_text_frame-with_parser c bytes

  process_close_frame-with_parser :
      (c : WebSocketConnection) (bytes : Bytes)
      → process_close_frame uv (with_parser p c) bytes
        ≡ with_parser p (process_close_frame uv c bytes)
  unfolding process_close_frame
  process_close_frame-with_parser c bytes =
      ap close (send_frame-with_parser p uv (record c { state = in_closing }) bytes 0x08)
      ∙ close-with_parser p _

  pub process_frame-with_parser :
      (m : Message) (c : WebSocketConnection)
      → process_frame uv server m (with_parser p c) ≡ with_parser p (process_frame uv server m c)
  unfolding process_frame process_ping_frame process_pong_frame
  process_frame-with_parser m c = ground (
    arith,
    process_text_frame-with_parser c m.payload,
    process_binary_frame-with_parser c m.payload,
    process_close_frame-with_parser c m.payload,
    send_frame-with_parser p uv c m.payload 0x0a,
  )
