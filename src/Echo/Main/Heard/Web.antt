-- ===== src/Echo/Main/Heard/Web.antt =====
-- src/uv_net/websocket_connection.cpp: no operation of a connection calls `on_open_` or `on_close_`
-- but for the end of the handshake and that of the connection.
use libuv_server.Prelude.{ℕ, suc, ◌≡◌, refl, false, some, List, [], ◌∷◌, arith, Bytes}
use libuv_server.Connection.{CallbackOpen, CallbackClose}
use libuv_server.Uv.{Uv}
use libuv_server.Tcp.State.{TcpServer}
use libuv_server.WebSocket.Connection.{
  WebSocketConnection, in_open, in_closed, start_heartbeat, close, write_front, try_send,
  send_frame, finish_graceful, on_write_complete, on_heartbeat_timeout,
}
use libuv_server.WebSocket.Receive.{send_handshake_response}
use libuv_server.WebSocket.Rules.{send_rule, serve_rule, on_data_received_rule}
use libuv_server.WebSocket.Server.{web_socket_class, on_handshake_complete, on_handle_closed}
use libuv_server.WebSocket.Server.System.{Action, sends, ends, times_out, reports}
use libuv_server.Echo.Main.Heard.{Heard, IsQuiet, on_new_connection-Heard, on_close-Heard}

abbrev pub WebHeard : ℕ → ℕ → WebSocketConnection → Type 0
WebHeard a b c = Heard a b c.tcp

module _ {a b : ℕ} where
  start_heartbeat-Heard :
      (server : TcpServer) (now : ℕ) (c : WebSocketConnection)
      → WebHeard a b c
      → WebHeard a b (start_heartbeat server now c)
  unfolding start_heartbeat
  start_heartbeat-Heard server now c v = ground arith

  close-Heard : (c : WebSocketConnection) → WebHeard a b c → WebHeard a b (close c)
  unfolding close
  close-Heard c v = ground arith

  write_front-Heard :
      (uv : Uv) (queue : List Bytes) (c : WebSocketConnection)
      → WebHeard a b c
      → WebHeard a b (write_front uv queue c)
  unfolding write_front
  write_front-Heard uv [] c v = v
  write_front-Heard uv (front ∷ rest) c v = ground arith

  try_send-Heard :
      (uv : Uv) (c : WebSocketConnection) → WebHeard a b c → WebHeard a b (try_send uv c)
  unfolding try_send
  try_send-Heard uv c v = ground (arith, write_front-Heard uv c.send_queue c v)

  send_frame-Heard :
      (uv : Uv) (c : WebSocketConnection) (bytes : Bytes) (opcode : ℕ)
      → WebHeard a b c
      → WebHeard a b (send_frame uv c bytes opcode)
  unfolding send_frame
  send_frame-Heard uv c bytes opcode v = try_send-Heard uv _ v

  pub Action-Heard :
      {uv : Uv} {server : TcpServer} {c c' : WebSocketConnection}
      → Action uv server c c'
      → WebHeard a b c
      → WebHeard a b c'
  unfolding on_heartbeat_timeout on_write_complete finish_graceful
  Action-Heard {uv} {server} (sends c bytes) v =
      send_rule uv server (WebHeard a b) (λ c v. close-Heard c v)
        (λ c bytes o s v. send_frame-Heard uv c bytes o v) (λ c b v. v) (λ c v. v) c bytes v
  Action-Heard (ends c) v = close-Heard c v
  Action-Heard (times_out c now) v = ground (arith, close-Heard c v)
  Action-Heard {uv} (reports c status) v = ground (
    arith,
    close-Heard c v,
    try_send-Heard uv (record c { tcp = record (c.tcp) { is_writing = false } }) v,
  )

pub web_socket_class-IsQuiet : (uv : Uv) (sha1 : Bytes → Bytes) → IsQuiet (web_socket_class uv sha1)
unfolding send_handshake_response
web_socket_class-IsQuiet uv sha1 = record {
  new = λ now ip port id. (refl, refl);
  noted = λ c t. refl;
  starts = λ a b s now c v. start_heartbeat-Heard s now c v;
  serves = λ a b s now requests c v.
      serve_rule uv s (WebHeard a b) (λ c v. close-Heard c v)
        (λ c bytes o s v. send_frame-Heard uv c bytes o v) (λ c b v. v) (λ c v. v) requests c v;
  receives = λ a b s now c c' bytes ran v.
      on_data_received_rule uv s (WebHeard a b) (λ c v. close-Heard c v)
        (λ c bytes o s v. send_frame-Heard uv c bytes o v) (λ c b v. v) (λ c v. v) (λ c p v. v) sha1
        (λ c b v. v) (λ c k v. v) c bytes v ran;
}

module _ (uv : Uv) (sha1 : Bytes → Bytes) (a b : ℕ) where
  pub on_handshake_complete-Heard :
      (now : ℕ) (s : TcpServer) (c : WebSocketConnection)
      → (f : CallbackOpen) × (s.on_open ≡ some f)
      → Heard a b c.tcp
      → Heard (suc a) b (on_handshake_complete uv sha1 now s c).1.tcp
  unfolding on_handshake_complete
  on_handshake_complete-Heard now s c set v =
      on_new_connection-Heard (web_socket_class uv sha1) (web_socket_class-IsQuiet uv sha1) a b now
        s _ set (start_heartbeat-Heard s now (record c { state = in_open }) v)

  pub on_handle_closed-Heard :
      (now : ℕ) (s : TcpServer) (c : WebSocketConnection)
      → (f : CallbackClose) × (s.on_close ≡ some f)
      → Heard a b c.tcp
      → Heard a (suc b) (on_handle_closed uv sha1 now s c).1.tcp
  unfolding on_handle_closed
  on_handle_closed-Heard now s c set v =
      on_close-Heard (web_socket_class uv sha1) (web_socket_class-IsQuiet uv sha1) a b now s
        (record c { state = in_closed }) set v
