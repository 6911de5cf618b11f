-- ===== src/Tcp/Channel/View.antt =====
-- src/uv_net/tcp_connection.cpp: the channel that a connection stands for, and the operations that
-- write to it or close it as moves.
use mathlib.Core.Path.{subst}
use libuv_server.Prelude.{
  ℕ, ◌+◌, ◌<◌, ◌≡◌, ◌≢◌, refl, Bool, true, false, not, ◌&&◌, ◌||◌, List, [], ◌∷◌, ◌++◌, ℤ, pos,
  is_negative, ◌==ℤ◌, arith, ltb, to_size, ◌-◌, ◌*◌, ◌%◌, ◌^◌, if◌then◌else◌, is_empty, Bytes,
  Bool-cases, inl, inr,
}
use libuv_server.Uv.{Uv, sent, write, writes_begun}
use libuv_server.Tcp.State.{TcpConnection, TcpServer}
use libuv_server.Tcp.Connection.{
  start_heartbeat, close, write_front, try_send, finish_graceful, on_write_complete,
  on_heartbeat_timeout,
}
use libuv_server.Tcp.Connection.Invariant.{has_closed, IsConsistent}
use libuv_server.Tcp.Channel.{
  Mode, accepting, draining, finished, Channel, Move, pass, drain, finish, Moves, none_made, made,
}

-- The mode that the flags of a connection stand for.
abbrev pub mode_of : TcpConnection → Mode
mode_of c =
    if has_closed c then finished else if c.is_closing_gracefully then draining else accepting

-- The same channel by the flags of the connection alone.
abbrev pub view : TcpConnection → Channel
view c = record { waiting = c.send_queue; passed = sent c.calls; mode = mode_of c }

not_finished : (b : Bool) → (if b then draining else accepting) ≢ finished
not_finished true e = cc
not_finished false e = cc

module _ {limit : ℕ} where
  pub trans_Moves : {a b c : Channel} → Moves limit a b → Moves limit b c → Moves limit a c
  trans_Moves m none_made = m
  trans_Moves m (made n v) = made (trans_Moves m n) v

  eq-Moves : {a b : Channel} → a ≡ b → Moves limit a b
  eq-Moves {a} e = subst (Moves limit a) e none_made

  pub one_move : {a a' b b' : Channel} → a ≡ a' → Move limit a' b' → b' ≡ b → Moves limit a b
  one_move e m f = trans_Moves (made (eq-Moves e) m) (eq-Moves f)

  pub close-Moves : (c : TcpConnection) → Moves limit (view c) (view (close c))
  unfolding close
  close-Moves c = elim (Bool-cases (c.is_closing || c.is_closing_gracefully)) [
    | inl ended ↦ eq-Moves (ground (arith, ended))
    | inr not_ended ↦ elim (Bool-cases (is_empty c.send_queue && not c.is_writing)) [
      | inl idle ↦
          one_move (ground (arith, not_ended, idle)) (finish (sent c.calls) accepting)
            (ground (arith, not_ended, idle))
      | inr busy ↦
          one_move (ground (arith, not_ended, busy)) (drain c.send_queue (sent c.calls))
            (ground (arith, not_ended, busy))
    ]
  ]

  -- The front of the queue was taken off; the write is not in flight.
  taken-Moves :
      (c c' : TcpConnection) (front : Bytes) (rest : List Bytes)
      → c.send_queue ≡ front ∷ rest
      → c.is_closing ≡ false
      → c'.send_queue ≡ rest
      → c'.is_closing ≡ false
      → c'.is_closing_gracefully ≡ c.is_closing_gracefully
      → sent c'.calls ≡ sent c.calls ++ front ∷ []
      → Moves limit (view c) (view c')
  taken-Moves c c' front rest q not_closed q' not_closed' g s = elim (Bool-cases (has_closed c')) [
    | inl over ↦
        trans_Moves
          (one_move (ground (arith, q, not_closed))
            (pass front rest (sent c.calls) draining (λ e. cc)) refl)
          (one_move (ground (arith, over, not_closed')) (finish (sent c'.calls) draining)
            (ground (arith, over, not_closed')))
    | inr not_over ↦
        one_move (ground (arith, q, not_closed))
          (pass front rest (sent c.calls) (if c.is_closing_gracefully then draining else accepting)
            (not_finished c.is_closing_gracefully))
          (ground (arith, q', not_over, g, s))
  ]

  write_front-Moves :
      (uv : Uv) (queue : List Bytes) (c : TcpConnection)
      → c.send_queue ≡ queue
      → c.is_closing ≡ false
      → Moves limit (view c) (view (write_front uv queue c))
  unfolding write_front
  write_front-Moves uv [] c q not_closed = none_made
  write_front-Moves uv (front ∷ rest) c q not_closed =
      elim (Bool-cases (not (uv.write_result c.calls front ==ℤ pos 0))) [
        | inl fails ↦ rw fails (
            trans_Moves
              (taken-Moves c (record writing { is_writing = false }) front rest q not_closed refl
                not_closed refl refl)
              (close-Moves (record writing { is_writing = false })))
        | inr works ↦
            rw works (taken-Moves c writing front rest q not_closed refl not_closed refl refl)
      ]
    where
      writing : TcpConnection
      writing = record c {
        send_queue = rest;
        is_writing = true;
        calls = write front (uv.write_result c.calls front) ∷ c.calls;
      }

  pub try_send-Moves :
      (uv : Uv) (c : TcpConnection)
      → c.is_closing ≡ false
      → Moves limit (view c) (view (try_send uv c))
  unfolding try_send
  try_send-Moves uv c not_closed = elim (Bool-cases (c.is_writing || is_empty c.send_queue)) [
    | inl waits ↦ rw waits none_made
    | inr free ↦ rw free (write_front-Moves uv c.send_queue c refl not_closed)
  ]

  finish_graceful-Moves : (c : TcpConnection) → Moves limit (view c) (view (finish_graceful c))
  unfolding finish_graceful
  finish_graceful-Moves c = eq-Moves (ground arith)

  -- The write in flight has ended.
  idle-Moves :
      (c c' : TcpConnection)
      → c.is_closing ≡ false
      → c.is_writing ≡ true
      → c'.send_queue ≡ c.send_queue
      → c'.is_closing ≡ false
      → c'.is_closing_gracefully ≡ c.is_closing_gracefully
      → sent c'.calls ≡ sent c.calls
      → Moves limit (view c) (view c')
  idle-Moves c c' not_closed writing q not_closed' g s = elim (Bool-cases (has_closed c')) [
    | inl over ↦
        one_move (ground (arith, over, not_closed', not_closed, writing, q, g))
          (finish (sent c.calls) draining) (ground (arith, over, not_closed', q, s))
    | inr not_over ↦ eq-Moves (ground (arith, not_over, not_closed, writing, q, g, s))
  ]

  pub on_write_complete-Moves :
      (uv : Uv) (now : ℕ) (reported : ℕ) (c : TcpConnection) (status : ℤ)
      → reported < writes_begun c.calls
      → IsConsistent limit reported c
      → Moves limit (view c) (view (on_write_complete uv now c status))
  unfolding on_write_complete
  on_write_complete-Moves uv now reported c status w v =
      let writing : c.is_writing ≡ true = ground (arith, w, v.flight) in
      let not_closed : c.is_closing ≡ false = ground (arith, writing, v.drained) in
      elim (Bool-cases (is_negative status)) [
        | inl fails ↦ elim (Bool-cases (not (status ==ℤ uv.ecanceled))) [
          | inl error ↦ rw fails (rw error (close-Moves c))
          | inr cancelled ↦ rw fails (rw cancelled none_made)
        ]
        | inr done ↦ rw done (
            trans_Moves (idle-Moves c idle not_closed writing refl not_closed refl refl) (
              trans_Moves (try_send-Moves uv idle not_closed)
                (finish_graceful-Moves (try_send uv idle))))
      ]
    where
      idle : TcpConnection
      idle = record c { is_writing = false; last_active_time = now }

  pub start_heartbeat-Moves :
      (server : TcpServer) (now : ℕ) (c : TcpConnection)
      → Moves limit (view c) (view (start_heartbeat server now c))
  unfolding start_heartbeat
  start_heartbeat-Moves server now c = eq-Moves (ground arith)

  pub on_heartbeat_timeout-Moves :
      (server : TcpServer) (now : ℕ) (c : TcpConnection)
      → Moves limit (view c) (view (on_heartbeat_timeout server now c))
  unfolding on_heartbeat_timeout
  on_heartbeat_timeout-Moves server now c =
      elim (Bool-cases (
        ltb (to_size server.config.heartbeat_interval * 2 % 2 ^ 64)
          ((now + 2 ^ 64 - c.last_active_time) % 2 ^ 64))) [
            | inl late ↦ rw late (close-Moves c)
            | inr active ↦ rw active none_made
          ]
