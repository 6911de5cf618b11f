-- ===== src/WebSocket/Server/System/Overcounted.antt =====
-- src/uv_net/websocket_connection.cpp:133-145 with src/uv_net/tcp_server.cpp: what the second call
-- of `OnNewConnection` does to the limit of a server over time.
use libuv_server.Prelude.{
  ℕ, ◌+◌, ◌^◌, ◌≤◌, ◌<◌, ◌≡◌, refl, ap, ◌∙◌, some, none, ◌∷◌, ℤ, arith, length, length-append,
  length-middle, Bytes, Option-cases, inl, inr,
}
use libuv_server.Config.{ServerConfig}
use libuv_server.Uv.{Uv}
use libuv_server.Tcp.State.{TcpServer}
use libuv_server.Tcp.Server.{
  SocketOptions, count_opened, count_closed, on_new_connection, on_connection, on_close, on_alloc,
  on_read,
}
use libuv_server.WebSocket.Connection.{WebSocketConnection}
use libuv_server.WebSocket.Receive.{on_data_received}
use libuv_server.WebSocket.Server.{web_socket_class, on_handshake_complete, on_handle_closed}
use libuv_server.WebSocket.Server.System.{
  System, Step, refuses, accepts, reads, acts, shakes_hands, deletes, Reach, at_start, and_then,
  idle,
}

-- With the configuration `config` throughout: the count is that of the connections that are not
-- deleted and of all handshakes ever completed, as far as it cannot wrap.
pub record IsOvercounted (config : ServerConfig) (s : System) : Type 0 where
  pub configured : s.server.config ≡ config
  pub few : length s.conns ≤ s.total
  pub counted :
      s.total + s.handshakes < 2 ^ 64 → s.server.current_connections ≡ length s.conns + s.handshakes

module _ (uv : Uv) (sha1 : Bytes → Bytes) where
  on_connection-opened :
      (now : ℕ) (status result : ℤ) (from : Bytes × ℕ) (s server : TcpServer)
      (c : WebSocketConnection) (options : SocketOptions)
      → on_connection (web_socket_class uv sha1) now status result from s
        ≡ (server, some (c, options))
      → (server.config ≡ s.config)
        × (server.current_connections ≡ (count_opened s).current_connections)
  unfolding on_connection on_new_connection count_opened
  on_connection-opened now status result (ip, port) s server c options e = ground arith

  on_connection-same :
      (now : ℕ) (status result : ℤ) (from : Bytes × ℕ) (s server : TcpServer)
      → on_connection (web_socket_class uv sha1) now status result from s ≡ (server, none)
      → server ≡ s
  unfolding on_connection
  on_connection-same now status result from s server e = ground arith

  on_read-counts :
      (now : ℕ) (nread : ℤ) (bytes : Bytes) (buffer : ℕ) (s server : TcpServer)
      (c c' : WebSocketConnection)
      → on_read (web_socket_class uv sha1) now nread bytes buffer s c ≡ some (server, c')
      → (server.config ≡ s.config) × (server.current_connections ≡ s.current_connections)
  unfolding on_read
  on_read-counts now nread bytes buffer s server c c' e =
      elim (Option-cases (on_data_received uv sha1 s c bytes)) [
        | inl n ↦ ground (arith, n)
        | inr (d, n) ↦ ground (arith, n)
      ]

  Step-IsOvercounted :
      {config : ServerConfig} {s t : System}
      → Step uv sha1 s t
      → IsOvercounted config s
      → IsOvercounted config t
  unfolding on_alloc count_opened on_handshake_complete on_new_connection on_handle_closed on_close
      count_closed
  Step-IsOvercounted (refuses s now status result from server e) v =
      rw (on_connection-same now status result from s.server server e) v
  Step-IsOvercounted (accepts s now status result from server c options e) v =
      let (same, more) = on_connection-opened now status result from s.server server c options e in
      record {
        configured = same ∙ v.configured;
        few = omega (arith, v.few);
        counted = λ h. omega (arith, more, v.counted (omega (arith, h)), v.few, h);
      }
  Step-IsOvercounted (reads s before after c c' now nread bytes server e ran) v =
      let (same, count) = on_read-counts now nread bytes _ _ server c c' ran in
      let size = ap length e ∙ length-middle before after c' c in
      record {
        configured = same ∙ v.configured;
        few = omega (arith, v.few, size);
        counted = λ h. omega (arith, count, v.counted h, size);
      }
  Step-IsOvercounted (acts s before after c c' e a) v =
      let size = ap length e ∙ length-middle before after c' c in
      record {
        configured = v.configured;
        few = omega (arith, v.few, size);
        counted = λ h. omega (arith, v.counted h, size);
      }
  Step-IsOvercounted (shakes_hands s before after c now e) v =
      let size =
        ap length e
        ∙ length-middle before after (on_handshake_complete uv sha1 now s.server c).1 c in
      record {
        configured = v.configured;
        few = omega (arith, v.few, size);
        counted = λ h. omega (arith, v.counted (omega (arith, h)), v.few, size, h);
      }
  Step-IsOvercounted (deletes s before after c now e h) v =
      let size = ap length e ∙ length-append before (c ∷ after) in
      let left = length-append before after in
      record {
        configured = ground (arith, v.configured);
        few = omega (arith, v.few, size, left);
        counted = λ h. ground (arith, v.counted h, size, left);
      }

  pub Reach-IsOvercounted :
      (server : TcpServer) {s : System}
      → server.current_connections ≡ 0
      → Reach uv sha1 (idle server) s
      → IsOvercounted server.config s
  Reach-IsOvercounted server none_there at_start = record {
    configured = refl;
    few = omega arith;
    counted = λ h. none_there;
  }
  Reach-IsOvercounted server none_there (and_then r st) =
      Step-IsOvercounted st (Reach-IsOvercounted server none_there r)

  -- A WebSocket server with nothing counted yet, over any sequence of its callbacks and of those of
  -- all its connections: once as many handshakes were completed as the server may have connections,
  -- and before 2 ^ 64 connections and handshakes, it takes no connection any more, whatever libuv
  -- reports and even if all its connections are gone.
  pub handshakes_use_up :
      (server : TcpServer) {s : System} (now : ℕ) (status result : ℤ) (from : Bytes × ℕ)
      → server.current_connections ≡ 0
      → Reach uv sha1 (idle server) s
      → server.config.max_connections ≤ s.handshakes
      → s.total + s.handshakes < 2 ^ 64
      → on_connection (web_socket_class uv sha1) now status result from s.server ≡ (s.server, none)
  unfolding on_connection
  handshakes_use_up server {s} now status result from none_there r used h =
      let v = Reach-IsOvercounted server none_there r in
      let most = ap (λ k. k.max_connections) v.configured in ground (arith, v.counted h, most)
