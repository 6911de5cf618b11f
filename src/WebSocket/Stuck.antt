-- ===== src/WebSocket/Stuck.antt =====
-- src/uv_net/websocket_connection.cpp: WebSocket connections that never close their handle themselves.
use libuv_server.Prelude.{ℕ, ◌≡◌, refl, false, some, List, [], ◌∷◌, ℤ, arith, Bytes}
use libuv_server.Uv.{Uv, Calls, closes, close_bare}
use libuv_server.Tcp.State.{TcpServer}
use libuv_server.WebSocket.Connection.{
  WebSocketConnection, in_closing, start_heartbeat, close, write_front, try_send, send_frame, send,
  finish_graceful, on_write_complete, on_heartbeat_timeout,
}
use libuv_server.WebSocket.Receive.{send_handshake_response, process_close_frame, on_data_received}
use libuv_server.WebSocket.Rules.{on_data_received_rule}

-- Nothing of the connection's own will close its handle: it is in the closing state, and it is not
-- in a graceful close.
pub record IsAbandoned (calls : Calls) (c : WebSocketConnection) : Type 0 where
  pub closing : c.state ≡ in_closing
  pub not_graceful : c.is_closing_gracefully ≡ false
  pub unclosed : closes c.tcp.calls ≡ closes calls

module _ {calls : Calls} where
  close-IsAbandoned : (c : WebSocketConnection) → IsAbandoned calls c → IsAbandoned calls (close c)
  unfolding close
  close-IsAbandoned c v = ground arith

  write_front-IsAbandoned :
      (uv : Uv) (queue : List Bytes) (c : WebSocketConnection)
      → IsAbandoned calls c
      → IsAbandoned calls (write_front uv queue c)
  unfolding write_front
  write_front-IsAbandoned uv [] c v = v
  write_front-IsAbandoned uv (front ∷ rest) c v = ground arith

  try_send-IsAbandoned :
      (uv : Uv) (c : WebSocketConnection) → IsAbandoned calls c → IsAbandoned calls (try_send uv c)
  unfolding try_send
  try_send-IsAbandoned uv c v = ground (arith, write_front-IsAbandoned uv c.send_queue c v)

  finish_graceful-IsAbandoned :
      (c : WebSocketConnection) → IsAbandoned calls c → IsAbandoned calls (finish_graceful c)
  unfolding finish_graceful
  finish_graceful-IsAbandoned c v = ground arith

  on_write_complete-IsAbandoned :
      (uv : Uv) (c : WebSocketConnection) (status : ℤ)
      → IsAbandoned calls c
      → IsAbandoned calls (on_write_complete uv c status)
  unfolding on_write_complete
  on_write_complete-IsAbandoned uv c status v = ground (
    arith,
    close-IsAbandoned c v,
    finish_graceful-IsAbandoned _ (try_send-IsAbandoned uv idle kept),
  )
    where
      idle : WebSocketConnection
      idle = record c { tcp = record (c.tcp) { is_writing = false } }

      kept : IsAbandoned calls idle
      kept = record { closing = v.closing; not_graceful = v.not_graceful; unclosed = v.unclosed }

  send_frame-IsAbandoned :
      (uv : Uv) (c : WebSocketConnection) (bytes : Bytes) (opcode : ℕ)
      → IsAbandoned calls c
      → IsAbandoned calls (send_frame uv c bytes opcode)
  unfolding send_frame
  send_frame-IsAbandoned uv c bytes opcode v = try_send-IsAbandoned uv _ (ground arith)

-- What can still happen to a connection with no response to a handshake in flight, in any order: the
-- user's calls, the heartbeat, completions of writes, data from the peer for which `OnDataReceived`
-- returns, and reads that give no data.
pub data Later (uv : Uv) (sha1 : Bytes → Bytes) (server : TcpServer) (c : WebSocketConnection)
    : WebSocketConnection → Type 0 where
  at_once : Later uv sha1 server c c
  starts :
      {d : WebSocketConnection} (time : ℕ)
      → Later uv sha1 server c d
      → Later uv sha1 server c (start_heartbeat server time d)
  sends :
      {d : WebSocketConnection} (bytes : Bytes)
      → Later uv sha1 server c d
      → Later uv sha1 server c (send uv server d bytes)
  ends : {d : WebSocketConnection} → Later uv sha1 server c d → Later uv sha1 server c (close d)
  times_out :
      {d : WebSocketConnection} (time : ℕ)
      → Later uv sha1 server c d
      → Later uv sha1 server c (on_heartbeat_timeout server time d)
  reports :
      {d : WebSocketConnection} (status : ℤ)
      → Later uv sha1 server c d
      → Later uv sha1 server c (on_write_complete uv d status)
  reads_end :
      {d : WebSocketConnection}
      → Later uv sha1 server c d
      → Later uv sha1 server c
          (record d { tcp = record (d.tcp) { calls = close_bare ∷ d.tcp.calls } })
  receives :
      {d e : WebSocketConnection} (bytes : Bytes)
      → on_data_received uv sha1 server d bytes ≡ some e
      → Later uv sha1 server c d
      → Later uv sha1 server c e

module _ (uv : Uv) (server : TcpServer) {calls : Calls} where
  send-IsAbandoned :
      (c : WebSocketConnection) (bytes : Bytes)
      → IsAbandoned calls c
      → IsAbandoned calls (send uv server c bytes)
  unfolding send
  send-IsAbandoned c bytes v = ground arith

  on_heartbeat_timeout-IsAbandoned :
      (now : ℕ) (c : WebSocketConnection)
      → IsAbandoned calls c
      → IsAbandoned calls (on_heartbeat_timeout server now c)
  unfolding on_heartbeat_timeout
  on_heartbeat_timeout-IsAbandoned now c v = ground (arith, close-IsAbandoned c v)

  start_heartbeat-IsAbandoned :
      (time : ℕ) (c : WebSocketConnection)
      → IsAbandoned calls c
      → IsAbandoned calls (start_heartbeat server time c)
  unfolding start_heartbeat
  start_heartbeat-IsAbandoned time c v = ground arith

  Later-IsAbandoned :
      (sha1 : Bytes → Bytes) {c d : WebSocketConnection}
      → Later uv sha1 server c d
      → IsAbandoned calls c
      → IsAbandoned calls d
  unfolding send_handshake_response
  Later-IsAbandoned sha1 at_once v = v
  Later-IsAbandoned sha1 (starts {d} time l) v =
      start_heartbeat-IsAbandoned time d (Later-IsAbandoned sha1 l v)
  Later-IsAbandoned sha1 (sends {d} bytes l) v =
      send-IsAbandoned d bytes (Later-IsAbandoned sha1 l v)
  Later-IsAbandoned sha1 (ends {d} l) v = close-IsAbandoned d (Later-IsAbandoned sha1 l v)
  Later-IsAbandoned sha1 (times_out {d} time l) v =
      on_heartbeat_timeout-IsAbandoned time d (Later-IsAbandoned sha1 l v)
  Later-IsAbandoned sha1 (reports {d} status l) v =
      on_write_complete-IsAbandoned uv d status (Later-IsAbandoned sha1 l v)
  Later-IsAbandoned sha1 (reads_end {d} l) v =
      let w = Later-IsAbandoned sha1 l v in
      record { closing = w.closing; not_graceful = w.not_graceful; unclosed = w.unclosed }
  Later-IsAbandoned sha1 (receives {d} bytes e l) v =
      on_data_received_rule uv server (IsAbandoned calls) close-IsAbandoned
        (λ c b o s v. send_frame-IsAbandoned uv c b o v) (λ c b v. ground arith)
        (λ c v. ground arith) (λ c p v. ground arith) sha1 (λ c b v. ground arith)
        (λ c k v. ground arith) d bytes (Later-IsAbandoned sha1 l v) e

-- A close frame from the peer, on a connection in no graceful close and with no response to a
-- handshake in flight, is never followed by the connection's own `uv_close`: whatever the peer sends,
-- whatever writes of frames are reported, whatever the user asks for, however often the heartbeat runs
-- out and whatever reads end, `uv_close` is not called with the callback that deletes the connection,
-- and the connection stays in the closing state. The server may still close the handle with no
-- callback, where a read gives no data.
pub close_frame_never_closes :
    (uv : Uv) (sha1 : Bytes → Bytes) (server : TcpServer) (c : WebSocketConnection) (bytes : Bytes)
    {d : WebSocketConnection}
    → c.is_closing_gracefully ≡ false
    → Later uv sha1 server (process_close_frame uv c bytes) d
    → (d.state ≡ in_closing) × (closes d.tcp.calls ≡ closes c.tcp.calls)
unfolding process_close_frame
close_frame_never_closes uv sha1 server c bytes h l =
    let v = Later-IsAbandoned uv server {calls = c.tcp.calls} sha1 l (
      close-IsAbandoned _ (
        send_frame-IsAbandoned uv (record c { state = in_closing }) bytes 0x08
          (record { closing = refl; not_graceful = h; unclosed = refl }))) in
    (v.closing, v.unclosed)
