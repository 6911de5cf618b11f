-- ===== src/WebSocket/Receive/Delivered.antt =====
-- src/uv_net/websocket_connection.cpp: which bytes the message callback is given.
use libuv_server.Prelude.{
  ◌≡◌, refl, ◌∙◌, true, none, some, List, [], ◌∷◌, ◌++◌, arith, ◌||◌, ◌==◌, Bytes,
}
use libuv_server.Connection.{Request, send_bytes, close_it, CallbackMessage}
use libuv_server.Uv.{Uv, delivered}
use libuv_server.Tcp.State.{TcpServer, peer}
use libuv_server.WebSocket.Parser.{Message}
use libuv_server.WebSocket.Connection.{
  WebSocketConnection, in_open, close, write_front, try_send, send_frame, send, serve,
}
use libuv_server.WebSocket.Receive.{
  on_message, process_text_frame, process_binary_frame, process_frame,
}

module _ (uv : Uv) where
  close-delivered :
      (c : WebSocketConnection) → delivered (close c).tcp.calls ≡ delivered c.tcp.calls
  unfolding close
  close-delivered c = ground arith

  write_front-delivered :
      (queue : List Bytes) (c : WebSocketConnection)
      → delivered (write_front uv queue c).tcp.calls ≡ delivered c.tcp.calls
  unfolding write_front
  write_front-delivered [] c = refl
  write_front-delivered (front ∷ rest) c = ground arith

  send-delivered :
      (server : TcpServer) (c : WebSocketConnection) (bytes : Bytes)
      → delivered (send uv server c bytes).tcp.calls ≡ delivered c.tcp.calls
  unfolding send send_frame try_send
  send-delivered server c bytes = ground (arith, write_front-delivered _ _)

  serve-delivered :
      (server : TcpServer) (requests : List Request) (c : WebSocketConnection)
      → delivered (serve uv server requests c).tcp.calls ≡ delivered c.tcp.calls
  unfolding serve
  serve-delivered server [] c = refl
  serve-delivered server (send_bytes bytes ∷ rest) c =
      serve-delivered server rest (send uv server c bytes) ∙ send-delivered server c bytes
  serve-delivered server (close_it ∷ rest) c =
      serve-delivered server rest (close c) ∙ close-delivered c

  on_message-delivered :
      (server : TcpServer) (callback : CallbackMessage) (c : WebSocketConnection) (bytes : Bytes)
      → server.on_message ≡ some callback
      → delivered (on_message uv server c bytes).tcp.calls ≡ delivered c.tcp.calls ++ bytes ∷ []
  unfolding on_message
  on_message-delivered server callback c bytes e =
      rw (e, on_message) (serve-delivered server (callback (peer c.tcp) bytes) _)

  -- With no package parser, the payload of a text or a binary frame on an open connection is handed
  -- over as it is.
  pub process_frame-delivered :
      (server : TcpServer) (callback : CallbackMessage) (m : Message) (c : WebSocketConnection)
      → server.on_message ≡ some callback
      → server.server_protocol ≡ none
      → ((m.opcode == 1) || (m.opcode == 2)) ≡ true
      → c.state ≡ in_open
      → delivered (process_frame uv server m c).tcp.calls ≡ delivered c.tcp.calls ++ m.payload ∷ []
  unfolding process_frame process_text_frame process_binary_frame
  process_frame-delivered server callback m c e p op o =
      rw p (ground (arith, on_message-delivered server callback c m.payload e))
