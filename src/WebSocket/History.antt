-- ===== src/WebSocket/History.antt =====
-- src/uv_net/websocket_connection.cpp: a connection over any history of calls and callbacks. libuv
-- reports each write that it took on once, and reads nothing from a handle that it was told to
-- close; where a read gives no data, the server closes it with no callback. The handshake is complete
-- while the connection still waits for that, so not after a close.
use libuv_server.Prelude.{
  ℕ, suc, ◌<◌, ◌≡◌, refl, some, ℤ, arith, Bytes, Option-cases, inl, inr, ◌∷◌,
}
use libuv_server.Uv.{Uv, closes, writes_begun, opened, close_bare}
use libuv_server.Tcp.State.{TcpServer, peer}
use libuv_server.WebSocket.Connection.{
  WebSocketConnection, in_handshake, in_open, make_web_socket, start_heartbeat, close, send,
  on_write_complete, on_heartbeat_timeout,
}
use libuv_server.WebSocket.Receive.{send_handshake_response, on_data_received}
use libuv_server.Tcp.Server.{on_new_connection, count_opened}
use libuv_server.WebSocket.Server.{on_handshake_complete}
use libuv_server.WebSocket.Rules.{on_data_received_rule, serve_rule}
use libuv_server.WebSocket.Invariant.{
  IsOrderly, IsReading, make_web_socket-IsOrderly, IsReading-IsOrderly, unclosed-IsReading,
  close-IsOrderly, close-IsReading, send_frame-IsReading, send-IsOrderly, start_heartbeat-IsOrderly,
  on_heartbeat_timeout-IsOrderly, on_write_complete-IsOrderly,
}

-- A connection, and how many of its writes were reported back.
pub record Driven : Type 0 where
  pub conn : WebSocketConnection
  pub reported : ℕ

pub data Step (uv : Uv) (sha1 : Bytes → Bytes) (server : TcpServer) : Driven → Driven → Type 0 where
  starts :
      (d : Driven) (now : ℕ)
      → Step uv sha1 server d (record d { conn = start_heartbeat server now d.conn })
  sends :
      (d : Driven) (bytes : Bytes)
      → Step uv sha1 server d (record d { conn = send uv server d.conn bytes })
  ends : (d : Driven) → Step uv sha1 server d (record d { conn = close d.conn })
  times_out :
      (d : Driven) (now : ℕ)
      → Step uv sha1 server d (record d { conn = on_heartbeat_timeout server now d.conn })
  receives :
      (d : Driven) (bytes : Bytes) (c : WebSocketConnection)
      → closes d.conn.tcp.calls ≡ 0
      → on_data_received uv sha1 server d.conn bytes ≡ some c
      → Step uv sha1 server d (record d { conn = c })
  shakes_hands :
      (d : Driven) (now : ℕ)
      → d.conn.state ≡ in_handshake
      → Step uv sha1 server d
          (record d { conn = (on_handshake_complete uv sha1 now server d.conn).1 })
  reads_end :
      (d : Driven)
      → Step uv sha1 server d (record d {
        conn = record (d.conn) {
          tcp = record (d.conn.tcp) { calls = close_bare ∷ d.conn.tcp.calls };
        };
      })
  reports :
      (d : Driven) (status : ℤ)
      → d.reported < writes_begun d.conn.tcp.calls
      → Step uv sha1 server d
          (record { conn = on_write_complete uv d.conn status; reported = suc d.reported })

pub data Reach (uv : Uv) (sha1 : Bytes → Bytes) (server : TcpServer) (s : Driven)
    : Driven → Type 0 where
  begins : Reach uv sha1 server s s
  continues :
      {t u : Driven} → Reach uv sha1 server s t → Step uv sha1 server t u → Reach uv sha1 server s u

-- A new connection.
abbrev pub fresh : ℕ → Driven
fresh now = record { conn = make_web_socket now; reported = 0 }

module _ (uv : Uv) (sha1 : Bytes → Bytes) (server : TcpServer) {reported : ℕ} where
  receive-IsReading :
      (c : WebSocketConnection) (bytes : Bytes) {c' : WebSocketConnection}
      → IsReading reported c
      → on_data_received uv sha1 server c bytes ≡ some c'
      → IsReading reported c'
  unfolding send_handshake_response
  receive-IsReading c bytes v e =
      on_data_received_rule uv server (IsReading reported) close-IsReading
        (λ c b o s v. send_frame-IsReading uv c b o v) (λ c b v. ground arith) (λ c v. ground arith)
        (λ c p v. ground arith) sha1 (λ c b v. ground arith) (λ c k v. ground arith) c bytes v e

  noted-IsReading :
      (c : WebSocketConnection)
      → IsReading reported c
      → IsReading reported (record c { tcp = record (c.tcp) { calls = opened ∷ c.tcp.calls } })
  noted-IsReading c v = ground arith

  opened-IsReading :
      (now : ℕ) (c : WebSocketConnection)
      → c.state ≡ in_handshake
      → IsOrderly reported c
      → IsReading reported (start_heartbeat server now (record c { state = in_open }))
  unfolding start_heartbeat
  opened-IsReading now c e v = ground (arith, e)

  on_handshake_complete-IsOrderly :
      (now : ℕ) (c : WebSocketConnection)
      → c.state ≡ in_handshake
      → IsOrderly reported c
      → IsOrderly reported (on_handshake_complete uv sha1 now server c).1
  unfolding on_handshake_complete on_new_connection
  on_handshake_complete-IsOrderly now c e v = elim (Option-cases server.on_open) [
    | inl n ↦ rw (n, on_new_connection) (IsReading-IsOrderly _ opening)
    | inr (callback, n) ↦
        rw (n, on_new_connection)
          (IsReading-IsOrderly _ (
            serve_rule uv (count_opened server) (IsReading reported) close-IsReading
              (λ c b o s v. send_frame-IsReading uv c b o v) (λ c b v. ground arith)
              (λ c v. ground arith) (callback (peer begun.tcp)) _ (noted-IsReading begun opening)))
  ]
    where
      begun : WebSocketConnection
      begun = start_heartbeat server now (record c { state = in_open })

      opening : IsReading reported begun
      opening = opened-IsReading now c e v

module _ (uv : Uv) (sha1 : Bytes → Bytes) (server : TcpServer) where
  Step-IsOrderly :
      {s t : Driven}
      → Step uv sha1 server s t
      → IsOrderly s.reported s.conn
      → IsOrderly t.reported t.conn
  Step-IsOrderly (starts d now) v = start_heartbeat-IsOrderly server now d.conn v
  Step-IsOrderly (sends d bytes) v = send-IsOrderly uv server d.conn bytes v
  Step-IsOrderly (ends d) v = close-IsOrderly d.conn v
  Step-IsOrderly (times_out d now) v = on_heartbeat_timeout-IsOrderly server now d.conn v
  Step-IsOrderly (receives d bytes c h e) v =
      IsReading-IsOrderly c
        (receive-IsReading uv sha1 server d.conn bytes (unclosed-IsReading d.conn v h) e)
  Step-IsOrderly (shakes_hands d now h) v =
      on_handshake_complete-IsOrderly uv sha1 server now d.conn h v
  Step-IsOrderly (reads_end d) v = ground arith
  Step-IsOrderly (reports d status h) v = on_write_complete-IsOrderly uv d.conn status h v

  pub Reach-IsOrderly :
      (now : ℕ) {d : Driven} → Reach uv sha1 server (fresh now) d → IsOrderly d.reported d.conn
  Reach-IsOrderly now begins = make_web_socket-IsOrderly now refl
  Reach-IsOrderly now (continues r st) = Step-IsOrderly st (Reach-IsOrderly now r)
