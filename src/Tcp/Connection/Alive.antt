-- ===== src/Tcp/Connection/Alive.antt =====
-- src/uv_net/tcp_connection.cpp: the heartbeat of a connection that is in use.
use libuv_server.Prelude.{
  ℕ, ◌+◌, ◌*◌, ◌^◌, ◌≤◌, ◌<◌, ◌≡◌, refl, false, ◌||◌, some, List, [], ◌∷◌, ◌++◌, ℤ, is_negative,
  arith, leb, length, to_size, Bytes, Option-cases, inl, inr,
}
use libuv_server.Connection.{Request, send_bytes, close_it}
use libuv_server.Uv.{Uv, queued}
use libuv_server.Tcp.State.{TcpConnection, TcpServer, peer}
use libuv_server.Tcp.Connection.{
  close, stop_heartbeat, write_front, try_send, send, finish_graceful, on_write_complete,
  on_heartbeat_timeout, serve, on_message, on_data_received,
}
use libuv_server.Tcp.Connection.Rules.{on_data_received_rule}

-- What happens at the time `now` on a connection in use: data comes in, a text is accepted for
-- sending, a write ends well.
pub data Activity (uv : Uv) (server : TcpServer) (now : ℕ)
    : TcpConnection → TcpConnection → Type 0 where
  receives :
      (c c' : TcpConnection) (bytes : Bytes)
      → on_data_received uv server now c bytes ≡ some c'
      → Activity uv server now c c'
  sends :
      (c : TcpConnection) (bytes : Bytes)
      → (c.is_closing || c.is_closing_gracefully) ≡ false
      → leb server.config.max_send_queue_size (length c.send_queue) ≡ false
      → Activity uv server now c (send uv server now c bytes)
  reports :
      (c : TcpConnection) (status : ℤ)
      → is_negative status ≡ false
      → Activity uv server now c (on_write_complete uv now c status)

-- Only an activity moves the time.
close-last_active_time : (c : TcpConnection) → (close c).last_active_time ≡ c.last_active_time
unfolding close stop_heartbeat
close-last_active_time c = ground arith

write_front-last_active_time :
    (uv : Uv) (queue : List Bytes) (c : TcpConnection)
    → (write_front uv queue c).last_active_time ≡ c.last_active_time
unfolding write_front close stop_heartbeat
write_front-last_active_time uv [] c = refl
write_front-last_active_time uv (front ∷ rest) c = ground arith

try_send-last_active_time :
    (uv : Uv) (c : TcpConnection) → (try_send uv c).last_active_time ≡ c.last_active_time
unfolding try_send
try_send-last_active_time uv c = ground (arith, write_front-last_active_time uv c.send_queue c)

module _ (uv : Uv) (server : TcpServer) (now : ℕ) where
  -- The connection was last active now.
  abbrev IsActive : TcpConnection → Type 0
  IsActive c = c.last_active_time ≡ now

  -- `Send` once the bytes are in the queue.
  abbrev enqueued : TcpConnection → Bytes → TcpConnection
  enqueued c bytes = record c {
    send_queue = c.send_queue ++ bytes ∷ [];
    calls = queued bytes ∷ c.calls;
    last_active_time = now;
  }

  send-IsActive :
      (c : TcpConnection) (bytes : Bytes) → IsActive c → IsActive (send uv server now c bytes)
  unfolding send
  send-IsActive c bytes v = ground (arith, try_send-last_active_time uv (enqueued c bytes))

  serve-IsActive :
      (requests : List Request) (c : TcpConnection)
      → IsActive c
      → IsActive (serve uv server now requests c)
  unfolding serve
  serve-IsActive [] c v = v
  serve-IsActive (send_bytes bytes ∷ rest) c v = serve-IsActive rest _ (send-IsActive c bytes v)
  serve-IsActive (close_it ∷ rest) c v =
      serve-IsActive rest (close c) (omega (arith, close-last_active_time c, v))

  on_message-IsActive :
      (c : TcpConnection) (bytes : Bytes) → IsActive c → IsActive (on_message uv server now c bytes)
  unfolding on_message
  on_message-IsActive c bytes v = elim (Option-cases server.on_message) [
    | inl e ↦ rw (e, on_message) v
    | inr (callback, e) ↦ rw (e, on_message) (serve-IsActive (callback (peer c) bytes) _ v)
  ]

  Activity-IsActive : {c c' : TcpConnection} → Activity uv server now c c' → IsActive c'
  unfolding send on_write_complete finish_graceful
  Activity-IsActive (receives c c' bytes e) =
      on_data_received_rule uv server now IsActive on_message-IsActive (λ c b v. v)
        (λ c v. omega (arith, close-last_active_time c, v)) c bytes refl e
  Activity-IsActive (sends c bytes o room) =
      ground (arith, o, room, try_send-last_active_time uv (enqueued c bytes))
  Activity-IsActive (reports c status ok) = ground (
    arith,
    ok,
    try_send-last_active_time uv (record c { is_writing = false; last_active_time = now }),
  )

-- Every activity counts for the heartbeat: after one at the time `now`, and nothing since, a timeout
-- leaves the connection as it is for twice the interval, and closes it later.
pub heartbeat_follows_activity :
    (uv : Uv) (server : TcpServer) (now later : ℕ) {c c' : TcpConnection}
    → Activity uv server now c c'
    → now ≤ later
    → later < 2 ^ 64
    → to_size server.config.heartbeat_interval * 2 < 2 ^ 64
    → (later ≤ now + to_size server.config.heartbeat_interval * 2
        → on_heartbeat_timeout server later c' ≡ c')
      × (now + to_size server.config.heartbeat_interval * 2 < later
          → on_heartbeat_timeout server later c' ≡ close c')
unfolding on_heartbeat_timeout
heartbeat_follows_activity uv server now later {c' = c'} a le small fits =
    let active = Activity-IsActive uv server now a in
    (
      λ soon. ground (arith, active, soon, le, small, fits),
      λ late. ground (arith, active, late, le, small, fits),
    )
