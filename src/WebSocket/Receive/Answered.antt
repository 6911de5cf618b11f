-- ===== src/WebSocket/Receive/Answered.antt =====
-- src/uv_net/websocket_connection.cpp: what a connection does with the frames of a client, one after
-- the other, where the message callback asks for nothing; Sequence has any sequence of them.
pub mod Sequence
use mathlib.Core.Path.{subst}
use libuv_server.Prelude.{
  ℕ, ◌≡◌, refl, sym, ◌∙◌, ap, Bool, true, false, ◌||◌, ◌==◌, none, some, List, [], ◌∷◌, ◌++◌,
  append_assoc, append-nil, map, pos, arith, All, Bytes, Bool-cases, inl, inr, if◌then◌else◌, ◌⊎◌,
}
use libuv_server.Connection.{CallbackMessage}
use libuv_server.Uv.{Uv, Calls, accepted, delivered}
use libuv_server.Tcp.State.{TcpServer, peer}
use libuv_server.WebSocket.Frame.{make_frame}
use libuv_server.WebSocket.Parser.{Message, initial}
use libuv_server.WebSocket.Connection.{
  WebSocketConnection, State, in_open, in_closing, close, write_front, try_send, send_frame, serve,
}
use libuv_server.WebSocket.Receive.{
  on_message, process_text_frame, process_binary_frame, process_close_frame, process_ping_frame,
  process_pong_frame, process_frame,
}
use libuv_server.WebSocket.Receive.Client.{
  ClientFrame, IsMasked, all_reads, framed, frame_parsed-more,
}
use libuv_server.WebSocket.Receive.Frames.{parse_frames}
use libuv_server.WebSocket.Receive.Separate.{with_parser}

-- What the callback is given of some messages: the texts and the binaries, up to the first close.
abbrev pub handed_over : List Message → List Bytes
handed_over [] = []
handed_over (m ∷ ms) =
    let rest = handed_over ms in
    if m.opcode == 1 || m.opcode == 2 then m.payload ∷ rest else if m.opcode == 8 then [] else rest

-- The frames that answer them: a close for a close, a pong for a ping, with the same payload.
abbrev pub answers_to : List Message → List Bytes
answers_to [] = []
answers_to (m ∷ ms) =
    let rest = answers_to ms in
    if m.opcode == 8
    then make_frame m.payload 8 ∷ rest
    else if m.opcode == 9
    then make_frame m.payload 10 ∷ rest
    else rest

abbrev pub has_close : List Message → Bool
has_close [] = false
has_close (m ∷ ms) = m.opcode == 8 || has_close ms

-- The connection `d` after some messages, where `c` was before them: given, answered, and its state.
pub record IsAfter (c : WebSocketConnection) (given answers : List Bytes) (state : State)
    (d : WebSocketConnection) : Type 0 where
  pub handed : delivered d.tcp.calls ≡ delivered c.tcp.calls ++ given
  pub answered : accepted d.tcp.calls ≡ accepted c.tcp.calls ++ answers
  pub in_state : d.state ≡ state

pub trans_IsAfter :
    {c d e : WebSocketConnection} (g given a answers : List Bytes) {state s : State}
    → IsAfter c g a s d
    → IsAfter d given answers state e
    → IsAfter c (g ++ given) (a ++ answers) state e
trans_IsAfter {c} g given a answers v w = record {
  handed = w.handed ∙ ap (λ l. l ++ given) v.handed ∙ append_assoc (delivered c.tcp.calls) g given;
  answered =
      w.answered
      ∙ ap (λ l. l ++ answers) v.answered
      ∙ append_assoc (accepted c.tcp.calls) a answers;
  in_state = w.in_state;
}

pub answers_to-cons :
    (m : Message) (ms : List Message) → answers_to (m ∷ []) ++ answers_to ms ≡ answers_to (m ∷ ms)
answers_to-cons m ms = ground arith

pub handed_over-cons :
    (m : Message) (ms : List Message)
    → (m.opcode == 8) ≡ false
    → handed_over (m ∷ []) ++ handed_over ms ≡ handed_over (m ∷ ms)
handed_over-cons m ms e = ground (arith, e)

pub handed_over-close :
    (m : Message) (ms : List Message) → (m.opcode == 8) ≡ true → handed_over (m ∷ ms) ≡ []
handed_over-close m ms e = ground (arith, e)

module _ (uv : Uv)
    (works : (calls : Calls) (bytes : Bytes) → uv.write_result calls bytes ≡ pos 0) where
  write_front-same :
      (queue : List Bytes) (c : WebSocketConnection)
      → (delivered (write_front uv queue c).tcp.calls ≡ delivered c.tcp.calls)
        × (accepted (write_front uv queue c).tcp.calls ≡ accepted c.tcp.calls)
        × ((write_front uv queue c).state ≡ c.state)
  unfolding write_front
  write_front-same [] c = (refl, refl, refl)
  write_front-same (front ∷ rest) c = ground (arith, works c.tcp.calls front)

  try_send-same :
      (c : WebSocketConnection)
      → (delivered (try_send uv c).tcp.calls ≡ delivered c.tcp.calls)
        × (accepted (try_send uv c).tcp.calls ≡ accepted c.tcp.calls)
        × ((try_send uv c).state ≡ c.state)
  unfolding try_send
  try_send-same c = ground (arith, write_front-same c.send_queue c)

  send_frame-IsAfter :
      (c : WebSocketConnection) (bytes : Bytes) (opcode : ℕ)
      → IsAfter c [] (make_frame bytes opcode ∷ []) c.state (send_frame uv c bytes opcode)
  unfolding send_frame
  send_frame-IsAfter c bytes opcode =
      let same = try_send-same _ in
      record { handed = same.0 ∙ sym (append-nil _); answered = same.1; in_state = same.2 }

  close-closing :
      (c d : WebSocketConnection) (given answers : List Bytes)
      → IsAfter c given answers in_closing d
      → IsAfter c given answers in_closing (close d)
  unfolding close
  close-closing c d given answers v = ground (arith, v)

  process_close_frame-IsAfter :
      (c : WebSocketConnection) (bytes : Bytes)
      → IsAfter c [] (make_frame bytes 8 ∷ []) in_closing (process_close_frame uv c bytes)
  unfolding process_close_frame
  process_close_frame-IsAfter c bytes =
      let v = send_frame-IsAfter (record c { state = in_closing }) bytes 8 in
      close-closing c (send_frame uv (record c { state = in_closing }) bytes 8) []
        (make_frame bytes 8 ∷ [])
        (record { handed = v.handed; answered = v.answered; in_state = v.in_state })

  module _ (server : TcpServer) (callback : CallbackMessage)
      (set : server.on_message ≡ some callback)
      (asks_nothing : (p : _) (bytes : Bytes) → callback p bytes ≡ [])
      (no_protocol : server.server_protocol ≡ none) where
    on_message-IsAfter :
        (c : WebSocketConnection) (bytes : Bytes)
        → IsAfter c (bytes ∷ []) [] c.state (on_message uv server c bytes)
    unfolding on_message serve
    on_message-IsAfter c bytes =
        rw (set, on_message)
          (rw (asks_nothing (peer c.tcp) bytes, serve)
            (record { handed = refl; answered = sym (append-nil _); in_state = refl }))

    -- One message on an open connection.
    pub open-IsAfter :
        (m : Message) (c : WebSocketConnection)
        → c.state ≡ in_open
        → IsAfter c
            (handed_over (m ∷ []))
            (answers_to (m ∷ []))
            (if m.opcode == 8 then in_closing else in_open)
            (process_frame uv server m c)
    unfolding process_frame process_text_frame process_binary_frame process_ping_frame
        process_pong_frame
    open-IsAfter m c o = ground (
      arith,
      append-nil (delivered c.tcp.calls),
      append-nil (accepted c.tcp.calls),
      on_message-IsAfter c m.payload,
      send_frame-IsAfter c m.payload 10,
      process_close_frame-IsAfter c m.payload,
    )

    -- And on a closing one.
    pub closing-IsAfter :
        (m : Message) (c : WebSocketConnection)
        → c.state ≡ in_closing
        → IsAfter c [] (answers_to (m ∷ [])) in_closing (process_frame uv server m c)
    unfolding process_frame process_text_frame process_binary_frame process_ping_frame
        process_pong_frame
    closing-IsAfter m c o = ground (
      arith,
      append-nil (delivered c.tcp.calls),
      append-nil (accepted c.tcp.calls),
      send_frame-IsAfter c m.payload 10,
      process_close_frame-IsAfter c m.payload,
    )
