-- ===== src/Tcp/Connection/Accepting.antt =====
-- src/uv_net/tcp_connection.cpp: texts that a callback sends on an open connection are accepted.
use libuv_server.Prelude.{
  ℕ, suc, ◌+◌, ◌≤◌, ◌<◌, ◌≡◌, refl, sym, ap, ◌∙◌, false, List, [], ◌∷◌, ◌++◌, append_assoc,
  append-nil, pos, arith, length, length-append, Bytes,
}
use libuv_server.Connection.{Request, send_bytes}
use libuv_server.Uv.{Uv, Calls, accepted, queued}
use libuv_server.Tcp.State.{TcpConnection, TcpServer}
use libuv_server.Tcp.Connection.{write_front, try_send, send, serve}

-- The requests that send these texts.
unfoldable pub send_all : List Bytes → List Request
send_all [] = []
send_all (bytes ∷ rest) = send_bytes bytes ∷ send_all rest

-- The connection takes what it is given to send.
pub record IsOpen (c : TcpConnection) : Type 0 where
  pub not_closing : c.is_closing ≡ false
  pub not_graceful : c.is_closing_gracefully ≡ false

module _ (uv : Uv) (server : TcpServer) (now : ℕ)
    (works : (calls : Calls) (bytes : Bytes) → uv.write_result calls bytes ≡ pos 0) where
  send_step :
      (c : TcpConnection) (queue : List Bytes) (bytes : Bytes)
      → IsOpen c
      → c.send_queue ≡ queue
      → length queue < server.config.max_send_queue_size
      → let c' = send uv server now c bytes in
        (accepted c'.calls ≡ accepted c.calls ++ bytes ∷ [])
        × (IsOpen c')
        × (length c'.send_queue ≤ suc (length queue))
  unfolding send try_send write_front
  send_step c [] bytes v q lt = ground (arith, works (queued bytes ∷ c.calls) bytes)
  send_step c (x ∷ xs) bytes v q lt =
      ground (arith, works (queued bytes ∷ c.calls) x, length-append xs (bytes ∷ []))

  -- Where `uv_write` does not fail and the queue has room for them, all texts that a callback sends
  -- on an open connection are accepted, in order, and the connection stays open.
  pub serve_accepts :
      (texts : List Bytes) (c : TcpConnection)
      → IsOpen c
      → length c.send_queue + length texts ≤ server.config.max_send_queue_size
      → let c' = serve uv server now (send_all texts) c in
        (accepted c'.calls ≡ accepted c.calls ++ texts) × IsOpen c'
  unfolding serve send_all
  serve_accepts [] c v room = (sym (append-nil (accepted c.calls)), v)
  serve_accepts (bytes ∷ rest) c v room =
      let first = send_step c c.send_queue bytes v refl (omega arith) in
      let later =
        serve_accepts rest (send uv server now c bytes) first.1 (omega (arith, first.2)) in
      (
        later.0 ∙ ap (λ a. a ++ rest) first.0 ∙ append_assoc (accepted c.calls) (bytes ∷ []) rest,
        later.1,
      )
