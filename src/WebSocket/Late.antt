-- ===== src/WebSocket/Late.antt =====
-- src/uv_net/websocket_connection.cpp: a handshake that completes after the connection was closed.
-- `uv_close` cancels the write of the response, whose callback does not look at its status.
use libuv_server.Prelude.{
  ℕ, suc, ◌<◌, ◌≡◌, refl, ap, ◌∙◌, false, some, [], ◌∷◌, ◌++◌, pos, ◌==ℤ◌, arith, Bytes,
}
use libuv_server.Connection.{send_bytes, CallbackOpen}
use libuv_server.Uv.{Uv, Calls, accepted, closes, opened, queued}
use libuv_server.Tcp.State.{TcpServer, peer}
use libuv_server.Tcp.Server.{on_new_connection, count_opened}
use libuv_server.WebSocket.Frame.{make_frame}
use libuv_server.WebSocket.Connection.{
  WebSocketConnection, in_handshake, in_open, start_heartbeat, stop_heartbeat, close, write_front,
  try_send, send_frame, send, serve,
}
use libuv_server.WebSocket.Server.{web_socket_class, on_handshake_complete}

module _ (uv : Uv) (server : TcpServer)
    (fails : (calls : Calls) (bytes : Bytes)
      → 0 < closes calls
      → (uv.write_result calls bytes ==ℤ pos 0) ≡ false) where
  -- A text sent on a closed handle, on a connection that calls itself open.
  send_fails :
      (c : WebSocketConnection) (bytes : Bytes)
      → 0 < closes c.tcp.calls
      → c.state ≡ in_open
      → c.is_closing_gracefully ≡ false
      → c.is_writing ≡ false
      → c.send_queue ≡ []
      → 0 < server.config.max_send_queue_size
      → (accepted (send uv server c bytes).tcp.calls
          ≡ accepted c.tcp.calls ++ make_frame bytes 1 ∷ [])
        × (closes (send uv server c bytes).tcp.calls ≡ suc (closes c.tcp.calls))
  unfolding send send_frame try_send write_front close stop_heartbeat
  send_fails c bytes before s g w q room =
      ground (arith, fails (queued (make_frame bytes 1) ∷ c.tcp.calls) (make_frame bytes 1) before)

-- What the completion of the handshake makes of an idle connection that was closed.
record IsReopened (c d : WebSocketConnection) : Type 0 where
  same_accepted : accepted d.tcp.calls ≡ accepted c.tcp.calls
  closed_before : closes d.tcp.calls ≡ suc (closes c.tcp.calls)
  called_open : d.state ≡ in_open
  not_graceful : d.is_closing_gracefully ≡ false
  not_writing : d.is_writing ≡ false
  nothing_queued : d.send_queue ≡ []
  same_peer : peer d.tcp ≡ peer c.tcp

reopens :
    (server : TcpServer) (now : ℕ) (c : WebSocketConnection)
    → c.state ≡ in_handshake
    → c.is_closing_gracefully ≡ false
    → c.is_writing ≡ false
    → c.send_queue ≡ []
    → IsReopened c (start_heartbeat server now (record (close c) { state = in_open }))
unfolding start_heartbeat close stop_heartbeat
reopens server now c s g w q = ground (arith, s, g, w, q)

-- The callback is called with the peer of the connection.
calls_back :
    (uv : Uv) (sha1 : Bytes → Bytes) (now : ℕ) (server : TcpServer) (d : WebSocketConnection)
    (callback : CallbackOpen) (bytes : Bytes)
    → server.on_open ≡ some callback
    → callback (peer d.tcp) ≡ send_bytes bytes ∷ []
    → (on_new_connection (web_socket_class uv sha1) now server d).1
      ≡ send uv
          (count_opened server)
          (record d { tcp = record (d.tcp) { calls = opened ∷ d.tcp.calls } })
          bytes
unfolding on_new_connection serve count_opened send
calls_back uv sha1 now server d callback bytes cb asks = rw (cb, on_new_connection) (rw asks refl)

-- After the close of an idle connection in its handshake, the completion of the handshake treats it as
-- an open one: where the user's `on_open_` sends a text then, its frame is accepted, and, where
-- `uv_write` fails on a handle that was closed, the handle is closed a second time.
pub late_handshake_closes_again :
    (uv : Uv) (sha1 : Bytes → Bytes) (now : ℕ) (server : TcpServer) (c : WebSocketConnection)
    (callback : CallbackOpen) (bytes : Bytes)
    → ((calls : Calls) (b : Bytes) → 0 < closes calls → (uv.write_result calls b ==ℤ pos 0) ≡ false)
    → server.on_open ≡ some callback
    → callback (peer c.tcp) ≡ send_bytes bytes ∷ []
    → 0 < server.config.max_send_queue_size
    → c.state ≡ in_handshake
    → c.is_closing_gracefully ≡ false
    → c.is_writing ≡ false
    → c.send_queue ≡ []
    → (closes (close c).tcp.calls ≡ suc (closes c.tcp.calls))
      × (let late = (on_handshake_complete uv sha1 now server (close c)).1.tcp.calls in
          (accepted late ≡ accepted c.tcp.calls ++ make_frame bytes 1 ∷ [])
          × (closes late ≡ suc (suc (closes c.tcp.calls))))
unfolding on_handshake_complete close stop_heartbeat count_opened
late_handshake_closes_again uv sha1 now server c callback bytes fails cb asks room s g w q =
    let again = reopens server now c s g w q in
    let d = start_heartbeat server now (record (close c) { state = in_open }) in
    let called =
      calls_back uv sha1 now server d callback bytes cb (ap callback again.same_peer ∙ asks) in
    let sending =
      send_fails uv (count_opened server) fails
        (record d { tcp = record (d.tcp) { calls = opened ∷ d.tcp.calls } }) bytes
        (omega (arith, again.closed_before)) again.called_open again.not_graceful again.not_writing
        again.nothing_queued room in
    (
      ground (arith, s, g, w, q),
      (
        ap (λ c. accepted c.tcp.calls) called
            ∙ sending.0
            ∙ ap (λ a. a ++ make_frame bytes 1 ∷ []) again.same_accepted,
        ap (λ c. closes c.tcp.calls) called ∙ sending.1 ∙ ap suc again.closed_before,
      ),
    )
