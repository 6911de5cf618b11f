-- ===== src/Echo/Main/Callbacks.antt =====
-- src/uv_net/tcp_server.cpp: no callback of a server changes what the user has set.
use libuv_server.Prelude.{
  ℕ, ◌≡◌, refl, ◌∙◌, Option, some, none, ℤ, arith, Bytes, Option-cases, inl, inr,
}
use libuv_server.Connection.{CallbackOpen, CallbackClose}
use libuv_server.Uv.{Uv}
use libuv_server.Tcp.State.{TcpServer}
use libuv_server.Tcp.Server.{
  ConnectionClass, SocketOptions, tcp_class, count_opened, count_closed, on_new_connection,
  on_connection, on_close, on_alloc, on_read, start_server,
}
use libuv_server.Tcp.Server.System
use libuv_server.WebSocket.Connection.{WebSocketConnection}
use libuv_server.WebSocket.Server.{web_socket_class, on_handshake_complete, on_handle_closed}
use libuv_server.WebSocket.Server.System as WebSocketSystem
use libuv_server.Echo.{ws_server}

-- Both callbacks of a server are set.
pub record HasCallbacks (s : TcpServer) : Type 0 where
  pub opens : (f : CallbackOpen) × (s.on_open ≡ some f)
  pub closes : (f : CallbackClose) × (s.on_close ≡ some f)

pub kept-HasCallbacks :
    (s t : TcpServer)
    → (t.on_open ≡ s.on_open) × (t.on_close ≡ s.on_close)
    → HasCallbacks s
    → HasCallbacks t
kept-HasCallbacks s t (o, c) v = record {
  opens = (v.opens.0, o ∙ v.opens.1);
  closes = (v.closes.0, c ∙ v.closes.1);
}

-- No callback of a server changes what the user has set.
module _ (k : ConnectionClass) where
  open k use {Conn, receive}

  on_connection-callbacks :
      (now : ℕ) (status result : ℤ) (from : Bytes × ℕ) (s server : TcpServer)
      (taken : Option (Conn × SocketOptions))
      → on_connection k now status result from s ≡ (server, taken)
      → (server.on_open ≡ s.on_open) × (server.on_close ≡ s.on_close)
  unfolding on_connection on_new_connection count_opened
  on_connection-callbacks now status result (ip, port) s server taken e = ground arith

  on_read-callbacks :
      (now : ℕ) (nread : ℤ) (bytes : Bytes) (buffer : ℕ) (s server : TcpServer) (c c' : Conn)
      → on_read k now nread bytes buffer s c ≡ some (server, c')
      → (server.on_open ≡ s.on_open) × (server.on_close ≡ s.on_close)
  unfolding on_read
  on_read-callbacks now nread bytes buffer s server c c' e =
      elim (Option-cases (receive s now c bytes)) [
        | inl n ↦ ground (arith, n)
        | inr (d, n) ↦ ground (arith, n)
      ]

  on_close-callbacks :
      (now : ℕ) (s : TcpServer) (c : Conn)
      → ((on_close k now s c).0.on_open ≡ s.on_open)
        × ((on_close k now s c).0.on_close ≡ s.on_close)
  unfolding on_close count_closed
  on_close-callbacks now s c = ground arith

module _ (uv : Uv) where
  pub tcp-HasCallbacks :
      {s t : System.System} → System.Step uv s t → HasCallbacks s.server → HasCallbacks t.server
  unfolding on_alloc
  tcp-HasCallbacks (System.refuses s now status result from server e) v =
      kept-HasCallbacks _ _
        (on_connection-callbacks (tcp_class uv) now status result from s.server server none e) v
  tcp-HasCallbacks (System.accepts s now status result from server c options e) v =
      kept-HasCallbacks _ _
        (on_connection-callbacks (tcp_class uv) now status result from s.server server _ e) v
  tcp-HasCallbacks (System.reads s before after c c' now nread bytes server e ran) v =
      kept-HasCallbacks s.server _
        (on_read-callbacks (tcp_class uv) now nread bytes _ _ server c c' ran) v
  tcp-HasCallbacks (System.acts s before after c c' e a) v = v
  tcp-HasCallbacks (System.deletes s before after c now e h) v =
      kept-HasCallbacks s.server _ (on_close-callbacks (tcp_class uv) now s.server c) v

module _ (uv : Uv) (sha1 : Bytes → Bytes) where
  on_handshake_complete-callbacks :
      (now : ℕ) (s : TcpServer) (c : WebSocketConnection)
      → ((on_handshake_complete uv sha1 now s c).0.on_open ≡ s.on_open)
        × ((on_handshake_complete uv sha1 now s c).0.on_close ≡ s.on_close)
  unfolding on_handshake_complete on_new_connection count_opened
  on_handshake_complete-callbacks now s c = (refl, refl)

  on_handle_closed-callbacks :
      (now : ℕ) (s : TcpServer) (c : WebSocketConnection)
      → ((on_handle_closed uv sha1 now s c).0.on_open ≡ s.on_open)
        × ((on_handle_closed uv sha1 now s c).0.on_close ≡ s.on_close)
  unfolding on_handle_closed
  on_handle_closed-callbacks now s c = on_close-callbacks (web_socket_class uv sha1) now s _

  pub ws-HasCallbacks :
      {s t : WebSocketSystem.System}
      → WebSocketSystem.Step uv sha1 s t
      → HasCallbacks s.server
      → HasCallbacks t.server
  unfolding on_alloc
  ws-HasCallbacks (WebSocketSystem.refuses s now status result from server e) v =
      kept-HasCallbacks _ _
        (on_connection-callbacks (web_socket_class uv sha1) now status result from s.server server
          none e)
        v
  ws-HasCallbacks (WebSocketSystem.accepts s now status result from server c options e) v =
      kept-HasCallbacks _ _
        (on_connection-callbacks (web_socket_class uv sha1) now status result from s.server server _
          e)
        v
  ws-HasCallbacks (WebSocketSystem.reads s before after c c' now nread bytes server e ran) v =
      kept-HasCallbacks s.server _
        (on_read-callbacks (web_socket_class uv sha1) now nread bytes _ _ server c c' ran) v
  ws-HasCallbacks (WebSocketSystem.acts s before after c c' e a) v = v
  ws-HasCallbacks (WebSocketSystem.shakes_hands s before after c now e) v =
      kept-HasCallbacks s.server _ (on_handshake_complete-callbacks now s.server c) v
  ws-HasCallbacks (WebSocketSystem.deletes s before after c now e h) v =
      kept-HasCallbacks s.server _ (on_handle_closed-callbacks now s.server c) v

pub started-HasCallbacks : (bound : ℤ) → HasCallbacks (start_server bound ws_server).0
unfolding start_server
started-HasCallbacks bound =
    kept-HasCallbacks ws_server _ (ground arith) (record { opens = (_, refl); closes = (_, refl) })
