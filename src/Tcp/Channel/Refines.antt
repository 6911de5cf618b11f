-- ===== src/Tcp/Channel/Refines.antt =====
-- src/uv_net/tcp_connection.cpp: every step of a connection is moves of the channel.
use libuv_server.Prelude.{
  ℕ, ltb, if◌then◌else◌, ◌≡◌, false, ◌||◌, some, List, [], ◌∷◌, ◌++◌, arith, leb, length, Bytes,
  Bool-cases, Option-cases, inl, inr,
}
use libuv_server.Connection.{Request, send_bytes, close_it}
use libuv_server.Uv.{Uv, sent, queued, closes}
use libuv_server.Tcp.State.{TcpConnection, TcpServer, peer}
use libuv_server.Tcp.Connection.{close, send, serve, on_message, on_data_received}
use libuv_server.Tcp.Connection.Invariant.{queue_limit}
use libuv_server.Tcp.Connection.Rules.{on_data_received_rule}
use libuv_server.Tcp.Channel.{Channel, accepting, draining, finished, accept, Moves, none_made}
use libuv_server.Tcp.Channel.View.{view, trans_Moves, one_move, close-Moves, try_send-Moves}

-- The channel that a connection stands for: it is finished once the handle was closed.
abbrev pub channel_of : TcpConnection → Channel
channel_of c = record {
  waiting = c.send_queue;
  passed = sent c.calls;
  mode =
      if ltb 0 (closes c.calls)
      then finished
      else if c.is_closing_gracefully
      then draining
      else accepting;
}

module _ (uv : Uv) (server : TcpServer) (now : ℕ) where
  queued-Moves :
      (c : TcpConnection) (bytes : Bytes)
      → (c.is_closing || c.is_closing_gracefully) ≡ false
      → leb server.config.max_send_queue_size (length c.send_queue) ≡ false
      → Moves (queue_limit server) (view c) (
          view (record c {
            send_queue = c.send_queue ++ bytes ∷ [];
            calls = queued bytes ∷ c.calls;
            last_active_time = now;
          }))
  queued-Moves c bytes not_ended room =
      one_move (ground (arith, not_ended))
        (accept c.send_queue (sent c.calls) bytes (ground (arith, room)))
        (ground (arith, not_ended))

  pub send-Moves :
      (c : TcpConnection) (bytes : Bytes)
      → Moves (queue_limit server) (view c) (view (send uv server now c bytes))
  unfolding send
  send-Moves c bytes = elim (Bool-cases (c.is_closing || c.is_closing_gracefully)) [
    | inl ended ↦ rw ended none_made
    | inr not_ended ↦
        elim (Bool-cases (leb server.config.max_send_queue_size (length c.send_queue))) [
          | inl full ↦ rw not_ended (rw full none_made)
          | inr room ↦ rw not_ended (
              rw room (
                trans_Moves (queued-Moves c bytes not_ended room)
                  (try_send-Moves uv _ (ground (arith, not_ended)))))
        ]
  ]

  serve-Moves :
      (requests : List Request) (c : TcpConnection)
      → Moves (queue_limit server) (view c) (view (serve uv server now requests c))
  unfolding serve
  serve-Moves [] c = none_made
  serve-Moves (send_bytes bytes ∷ rest) c =
      trans_Moves (send-Moves c bytes) (serve-Moves rest (send uv server now c bytes))
  serve-Moves (close_it ∷ rest) c = trans_Moves (close-Moves c) (serve-Moves rest (close c))

  on_message-Moves :
      (c : TcpConnection) (bytes : Bytes)
      → Moves (queue_limit server) (view c) (view (on_message uv server now c bytes))
  unfolding on_message
  on_message-Moves c bytes = elim (Option-cases server.on_message) [
    | inl e ↦ rw (e, on_message) none_made
    | inr (callback, e) ↦ rw (e, on_message) (serve-Moves (callback (peer c) bytes) _)
  ]

  pub on_data_received-Moves :
      (c : TcpConnection) (bytes : Bytes) {c' : TcpConnection}
      → on_data_received uv server now c bytes ≡ some c'
      → Moves (queue_limit server) (view c) (view c')
  on_data_received-Moves c bytes e =
      on_data_received_rule uv server now (λ d. Moves (queue_limit server) (view c) (view d))
        (λ d b m. trans_Moves m (on_message-Moves d b)) (λ d b m. m)
        (λ d m. trans_Moves m (close-Moves d)) c bytes none_made e
