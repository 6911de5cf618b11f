-- ===== src/WebSocket/Streamed.antt =====
-- src/uv_net/websocket_connection.cpp: what every operation of a connection keeps of the stream that
-- it writes, whatever libuv reports and however often.
use libuv_server.Prelude.{
  ℕ, ◌≡◌, refl, true, false, List, [], ◌∷◌, ◌++◌, append_assoc, ℤ, arith, Bytes,
}
use libuv_server.Uv.{Uv, accepted, sent}
use libuv_server.Tcp.State.{TcpServer}
use libuv_server.WebSocket.Frame.{make_frame}
use libuv_server.WebSocket.Connection.{
  WebSocketConnection, start_heartbeat, close, write_front, try_send, send_frame, send,
  finish_graceful, on_write_complete, on_heartbeat_timeout,
}
use libuv_server.WebSocket.Rules.{is_sent, send_rule}
use libuv_server.WebSocket.Wire.Written.{
  IsWritten, same-IsWritten, close-IsWritten, send_frame-IsWritten, start_heartbeat-accepted,
  on_heartbeat_timeout-accepted, on_write_complete-accepted,
}

-- What was queued went to `uv_write` in order, but for what waits.
abbrev pub IsInOrder : WebSocketConnection → Type 0
IsInOrder c = accepted c.tcp.calls ≡ sent c.tcp.calls ++ c.send_queue

close-IsInOrder : (c : WebSocketConnection) → IsInOrder c → IsInOrder (close c)
unfolding close
close-IsInOrder c v = ground arith

start_heartbeat-IsInOrder :
    (server : TcpServer) (now : ℕ) (c : WebSocketConnection)
    → IsInOrder c
    → IsInOrder (start_heartbeat server now c)
unfolding start_heartbeat
start_heartbeat-IsInOrder server now c v = ground arith

on_heartbeat_timeout-IsInOrder :
    (server : TcpServer) (now : ℕ) (c : WebSocketConnection)
    → IsInOrder c
    → IsInOrder (on_heartbeat_timeout server now c)
unfolding on_heartbeat_timeout
on_heartbeat_timeout-IsInOrder server now c v = ground (arith, close-IsInOrder c v)

module _ (uv : Uv) where
  write_front-IsInOrder :
      (queue : List Bytes) (c : WebSocketConnection)
      → c.send_queue ≡ queue
      → IsInOrder c
      → IsInOrder (write_front uv queue c)
  unfolding write_front
  write_front-IsInOrder [] c q v = v
  write_front-IsInOrder (front ∷ rest) c q v =
      ground (arith, append_assoc (sent c.tcp.calls) (front ∷ []) rest)

  try_send-IsInOrder : (c : WebSocketConnection) → IsInOrder c → IsInOrder (try_send uv c)
  unfolding try_send
  try_send-IsInOrder c v = ground (arith, write_front-IsInOrder c.send_queue c refl v)

  send_frame-IsInOrder :
      (c : WebSocketConnection) (bytes : Bytes) (opcode : ℕ)
      → IsInOrder c
      → IsInOrder (send_frame uv c bytes opcode)
  unfolding send_frame
  send_frame-IsInOrder c bytes opcode v =
      try_send-IsInOrder _ (
        ground (arith, append_assoc (sent c.tcp.calls) c.send_queue (make_frame bytes opcode ∷ [])))

  on_write_complete-IsInOrder :
      (c : WebSocketConnection) (status : ℤ)
      → IsInOrder c
      → IsInOrder (on_write_complete uv c status)
  unfolding on_write_complete finish_graceful
  on_write_complete-IsInOrder c status v = ground (
    arith,
    close-IsInOrder c v,
    try_send-IsInOrder (record c { tcp = record (c.tcp) { is_writing = false } }) v,
  )

-- And all of it are frames.
abbrev pub IsStreamed : WebSocketConnection → Type 0
IsStreamed c = IsInOrder c × IsWritten c

pub close-IsStreamed : (c : WebSocketConnection) → IsStreamed c → IsStreamed (close c)
close-IsStreamed c v = (close-IsInOrder c v.0, close-IsWritten c v.1)

pub start_heartbeat-IsStreamed :
    (server : TcpServer) (now : ℕ) (c : WebSocketConnection)
    → IsStreamed c
    → IsStreamed (start_heartbeat server now c)
start_heartbeat-IsStreamed server now c v = (
  start_heartbeat-IsInOrder server now c v.0,
  same-IsWritten c (start_heartbeat server now c) (start_heartbeat-accepted server now c) v.1,
)

module _ (uv : Uv) where
  pub send_frame-IsStreamed :
      (c : WebSocketConnection) (bytes : Bytes) (opcode : ℕ)
      → is_sent opcode ≡ true
      → IsStreamed c
      → IsStreamed (send_frame uv c bytes opcode)
  send_frame-IsStreamed c bytes opcode s v =
      (send_frame-IsInOrder uv c bytes opcode v.0, send_frame-IsWritten uv c bytes opcode s v.1)

  pub send-IsStreamed :
      (server : TcpServer) (c : WebSocketConnection) (bytes : Bytes)
      → IsStreamed c
      → IsStreamed (send uv server c bytes)
  send-IsStreamed server c bytes v =
      send_rule uv server IsStreamed close-IsStreamed send_frame-IsStreamed (λ c b v. v) (λ c v. v)
        c bytes v

  pub on_heartbeat_timeout-IsStreamed :
      (server : TcpServer) (now : ℕ) (c : WebSocketConnection)
      → IsStreamed c
      → IsStreamed (on_heartbeat_timeout server now c)
  on_heartbeat_timeout-IsStreamed server now c v = (
    on_heartbeat_timeout-IsInOrder server now c v.0,
    same-IsWritten c (on_heartbeat_timeout server now c)
        (on_heartbeat_timeout-accepted server now c) v.1,
  )

  pub on_write_complete-IsStreamed :
      (c : WebSocketConnection) (status : ℤ)
      → IsStreamed c
      → IsStreamed (on_write_complete uv c status)
  on_write_complete-IsStreamed c status v = (
    on_write_complete-IsInOrder uv c status v.0,
    same-IsWritten c (on_write_complete uv c status) (on_write_complete-accepted uv c status) v.1,
  )
