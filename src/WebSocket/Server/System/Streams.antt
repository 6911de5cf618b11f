-- ===== src/WebSocket/Server/System/Streams.antt =====
-- src/uv_net/websocket_server.cpp with src/uv_net/websocket_connection.cpp: what the clients of a
-- WebSocket server read, whatever its connections go through.
use libuv_server.Prelude.{
  ℕ, ◌^◌, ◌<◌, ◌≡◌, refl, ◌∙◌, some, List, [], ◌∷◌, ◌++◌, ℤ, arith, length, concat, All, All-split,
  Bytes, ◌⊎◌, Option-cases, inl, inr, Bool-cases, ◌+◌, ◌%◌, gtb_ℤ,
}
use mathlib.Core.Path.{subst}
use libuv_server.Uv.{Uv, accepted, sent, opened, close_bare}
use libuv_server.Tcp.State.{TcpServer, make_connection, peer}
use libuv_server.Tcp.Server.{
  SocketOptions, count_opened, on_new_connection, on_connection, on_alloc, on_read,
}
use libuv_server.WebSocket.Parser.{Message}
use libuv_server.WebSocket.Connection.{
  WebSocketConnection, in_open, make_web_socket, start_heartbeat,
}
use libuv_server.WebSocket.Receive.{send_handshake_response, on_data_received}
use libuv_server.WebSocket.Server.{web_socket_class, on_handshake_complete}
use libuv_server.WebSocket.Rules.{serve_rule, on_data_received_rule}
use libuv_server.WebSocket.Wire.{frames, IsSent, read_stream}
use libuv_server.WebSocket.Wire.Written.{written_stream}
use libuv_server.WebSocket.Streamed.{
  IsStreamed, close-IsStreamed, start_heartbeat-IsStreamed, send_frame-IsStreamed, send-IsStreamed,
  on_heartbeat_timeout-IsStreamed, on_write_complete-IsStreamed,
}
use libuv_server.WebSocket.Server.System.{
  System, Action, sends, ends, times_out, reports, Step, refuses, accepts, reads, acts,
  shakes_hands, deletes, Reach, at_start, and_then, idle,
}

Action-IsStreamed :
    (uv : Uv) {server : TcpServer} {c c' : WebSocketConnection}
    → Action uv server c c'
    → IsStreamed c
    → IsStreamed c'
Action-IsStreamed uv {server} (sends c bytes) v = send-IsStreamed uv server c bytes v
Action-IsStreamed uv (ends c) v = close-IsStreamed c v
Action-IsStreamed uv {server} (times_out c now) v =
    on_heartbeat_timeout-IsStreamed uv server now c v
Action-IsStreamed uv (reports c status) v = on_write_complete-IsStreamed uv c status v

module _ (uv : Uv) (sha1 : Bytes → Bytes) where
  on_new_connection-IsStreamed :
      (now : ℕ) (s : TcpServer) (c : WebSocketConnection)
      → IsStreamed c
      → IsStreamed (on_new_connection (web_socket_class uv sha1) now s c).1
  unfolding on_new_connection
  on_new_connection-IsStreamed now s c v = elim (Option-cases s.on_open) [
    | inl n ↦ rw (n, on_new_connection) v
    | inr (callback, n) ↦
        rw (n, on_new_connection)
          (serve_rule uv (count_opened s) IsStreamed close-IsStreamed (send_frame-IsStreamed uv)
            (λ c b v. v) (λ c v. v) (callback (peer c.tcp))
            (record c { tcp = record (c.tcp) { calls = opened ∷ c.tcp.calls } }) v)
  ]

  on_handshake_complete-IsStreamed :
      (now : ℕ) (s : TcpServer) (c : WebSocketConnection)
      → IsStreamed c
      → IsStreamed (on_handshake_complete uv sha1 now s c).1
  unfolding on_handshake_complete
  on_handshake_complete-IsStreamed now s c v =
      on_new_connection-IsStreamed now s _
        (start_heartbeat-IsStreamed s now (record c { state = in_open }) v)

  -- The connection that is taken is the one that `OnNewConnection` was called for.
  on_connection-conn :
      (now : ℕ) (status result : ℤ) (ip : Bytes) (port : ℕ) (s server : TcpServer)
      (c : WebSocketConnection) (options : SocketOptions)
      → on_connection (web_socket_class uv sha1) now status result (ip, port) s
        ≡ (server, some (c, options))
      → let counted = record s { conn_id_counter = (s.conn_id_counter + 1) % 2 ^ 32 } in
        (on_new_connection (web_socket_class uv sha1) now counted (
          start_heartbeat counted now (record (make_web_socket now) {
            tcp = record (make_connection now) {
              ip = ip;
              port = port;
              conn_id = s.conn_id_counter;
            };
          }))).1
        ≡ c
  unfolding on_connection
  on_connection-conn now status result ip port s server c options e = ground arith

  on_connection-IsStreamed :
      (now : ℕ) (status result : ℤ) (from : Bytes × ℕ) (s server : TcpServer)
      (c : WebSocketConnection) (options : SocketOptions)
      → on_connection (web_socket_class uv sha1) now status result from s
        ≡ (server, some (c, options))
      → IsStreamed c
  on_connection-IsStreamed now status result (ip, port) s server c options e =
      subst IsStreamed (on_connection-conn now status result ip port s server c options e) (
        on_new_connection-IsStreamed now _ _
          (start_heartbeat-IsStreamed _ now _ (refl, ([], refl, tt))))

  on_read-conn :
      (now : ℕ) (nread : ℤ) (bytes : Bytes) (buffer : ℕ) (s server : TcpServer)
      (c c' : WebSocketConnection)
      → on_read (web_socket_class uv sha1) now nread bytes buffer s c ≡ some (server, c')
      → (on_data_received uv sha1 s c bytes ≡ some c')
        ⊎ (record c { tcp = record (c.tcp) { calls = close_bare ∷ c.tcp.calls } } ≡ c')
  unfolding on_read
  on_read-conn now nread bytes buffer s server c c' e =
      elim (Option-cases (on_data_received uv sha1 s c bytes)) [
        | inl n ↦ inr (ground (arith, n))
        | inr (d, n) ↦ elim (Bool-cases (gtb_ℤ nread 0)) [
          | inl h ↦ inl (n ∙ ground (arith, n))
          | inr h ↦ inr (ground (arith, n))
        ]
      ]

  on_read-IsStreamed :
      (now : ℕ) (nread : ℤ) (bytes : Bytes) (buffer : ℕ) (s server : TcpServer)
      (c c' : WebSocketConnection)
      → on_read (web_socket_class uv sha1) now nread bytes buffer s c ≡ some (server, c')
      → IsStreamed c
      → IsStreamed c'
  unfolding send_handshake_response
  on_read-IsStreamed now nread bytes buffer s server c c' e v =
      elim (on_read-conn now nread bytes buffer s server c c' e) [
        | inl ran ↦
            on_data_received_rule uv s IsStreamed close-IsStreamed (send_frame-IsStreamed uv)
              (λ c b v. v) (λ c v. v) (λ c p v. v) sha1 (λ c b v. v) (λ c k v. v) c bytes v ran
        | inr same ↦ subst IsStreamed same v
      ]

  Step-IsStreamed :
      {s t : System} → Step uv sha1 s t → All IsStreamed s.conns → All IsStreamed t.conns
  unfolding on_alloc
  Step-IsStreamed (refuses s now status result from server e) v = v
  Step-IsStreamed (accepts s now status result from server c options e) v =
      (on_connection-IsStreamed now status result from s.server server c options e, v)
  Step-IsStreamed (reads s before after c c' now nread bytes server e ran) v =
      let (p, rest, put) = All-split IsStreamed before after c (rw e at v) in
      put c' (on_read-IsStreamed now nread bytes _ _ server c c' ran p)
  Step-IsStreamed (acts s before after c c' e a) v =
      let (p, rest, put) = All-split IsStreamed before after c (rw e at v) in
      put c' (Action-IsStreamed uv a p)
  Step-IsStreamed (shakes_hands s before after c now e) v =
      let (p, rest, put) = All-split IsStreamed before after c (rw e at v) in
      put _ (on_handshake_complete-IsStreamed now s.server c p)
  Step-IsStreamed (deletes s before after c now e h) v =
      let (p, rest, put) = All-split IsStreamed before after c (rw e at v) in rest

  Reach-IsStreamed :
      (server : TcpServer) {s : System} → Reach uv sha1 (idle server) s → All IsStreamed s.conns
  Reach-IsStreamed server at_start = tt
  Reach-IsStreamed server (and_then r st) = Step-IsStreamed st (Reach-IsStreamed server r)

  -- Whatever order the callbacks of a WebSocket server and of all its connections come in, whatever
  -- libuv reports and however often, and also after a close: each connection that is not deleted gave
  -- to `uv_write` the frames that it queued itself, in order and once, but for those that wait in its
  -- own queue; and where none of them has 2 ^ 64 bytes, what it wrote behind the responses to the
  -- handshake is a stream of whole frames with the opcodes of texts, closes and pongs, which a client
  -- that reads it to its end takes apart into just their messages, in order.
  pub Reach-streams :
      (server : TcpServer) {s : System} (before after : List WebSocketConnection)
      (c : WebSocketConnection)
      → Reach uv sha1 (idle server) s
      → s.conns ≡ before ++ c ∷ after
      → All (λ f. length f < 2 ^ 64) (sent c.tcp.calls)
      → let stream = concat (sent c.tcp.calls) in
        (accepted c.tcp.calls ≡ sent c.tcp.calls ++ c.send_queue)
        × ((ms : List Message) × (sent c.tcp.calls ≡ frames ms)
            × (All IsSent ms)
            × (read_stream (length stream) stream ≡ some ms))
  Reach-streams server before after c r e h =
      let (v, rest, put) =
        All-split IsStreamed before after c (rw e at (Reach-IsStreamed server r)) in
      (v.0, written_stream c v.1 v.0 h)
