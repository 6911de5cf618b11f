-- ===== src/Tcp/Connection/Closing.antt =====
-- src/uv_net/tcp_connection.cpp: how a connection ends, and where it does not.
use libuv_server.Prelude.{
  ℕ, suc, ◌≡◌, true, false, List, [], ◌∷◌, ◌++◌, append_assoc, append-nil, pos, arith, length,
  Bytes,
}
use libuv_server.Uv.{Uv, Calls, sent, closes}
use libuv_server.Tcp.State.{TcpConnection}
use libuv_server.Tcp.Connection.{close, write_front, try_send, finish_graceful, on_write_complete}

-- Completions without an error, one after the other at the times given.
unfoldable pub complete_all : Uv → List ℕ → TcpConnection → TcpConnection
complete_all uv [] c = c
complete_all uv (now ∷ rest) c = complete_all uv rest (on_write_complete uv now c (pos 0))

module _ (uv : Uv)
    (works : (calls : Calls) (bytes : Bytes) → uv.write_result calls bytes ≡ pos 0) where
  pub complete_step :
      (now : ℕ) (c : TcpConnection) (front : Bytes) (rest : List Bytes)
      → c.send_queue ≡ front ∷ rest
      → c.is_closing_gracefully ≡ true
      → let c' = on_write_complete uv now c (pos 0) in
        (c'.send_queue ≡ rest)
        × (c'.is_closing_gracefully ≡ true)
        × (c'.is_writing ≡ true)
        × (sent c'.calls ≡ sent c.calls ++ front ∷ [])
        × (closes c'.calls ≡ closes c.calls)
  unfolding on_write_complete try_send write_front finish_graceful close
  complete_step now c front rest q g = ground (arith, works c.calls front)

  complete_last :
      (now : ℕ) (c : TcpConnection)
      → c.send_queue ≡ []
      → c.is_closing_gracefully ≡ true
      → let c' = on_write_complete uv now c (pos 0) in
        (sent c'.calls ≡ sent c.calls ++ [])
        × (closes c'.calls ≡ suc (closes c.calls))
        × (c'.send_queue ≡ [])
        × (c'.is_writing ≡ false)
  unfolding on_write_complete try_send finish_graceful
  complete_last now c q g = ground (arith, append-nil (sent c.calls))

  -- A graceful close ends: with `n` entries waiting, `n + 1` completions without an error send
  -- every entry in order and then close the handle once, where `uv_write` does not fail.
  pub graceful_close_ends :
      (times : List ℕ) (c : TcpConnection) (queue : List Bytes)
      → c.send_queue ≡ queue
      → length times ≡ suc (length queue)
      → c.is_closing_gracefully ≡ true
      → let c' = complete_all uv times c in
        (sent c'.calls ≡ sent c.calls ++ queue)
        × (closes c'.calls ≡ suc (closes c.calls))
        × (c'.send_queue ≡ [])
        × (c'.is_writing ≡ false)
  unfolding complete_all
  graceful_close_ends [] c queue q l g = absurd (omega arith)
  graceful_close_ends (now ∷ []) c [] q l g = complete_last now c q g
  graceful_close_ends (now ∷ later ∷ times) c [] q l g = absurd (omega arith)
  graceful_close_ends (now ∷ times) c (front ∷ rest) q l g =
      let now_sent = complete_step now c front rest q g in
      let later =
        graceful_close_ends times (on_write_complete uv now c (pos 0)) rest now_sent.0 (omega arith)
          now_sent.1 in
      ground (arith, append_assoc (sent c.calls) (front ∷ []) rest)
