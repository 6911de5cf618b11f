-- ===== src/WebSocket/Receive/Again.antt =====
-- src/uv_net/websocket_connection.cpp: reads between the answer to a request and its completion.
use libuv_server.Prelude.{
  ◌^◌, ◌<◌, ◌≡◌, refl, sym, ap, ◌∙◌, true, some, List, [], ◌∷◌, ◌++◌, map, append_assoc, append-nil,
  length, Bytes, Bool-cases, inl, inr,
}
use libuv_server.Uv.{Uv, Calls, write_handshake, delivered}
use libuv_server.Tcp.State.{TcpServer}
use libuv_server.WebSocket.Handshake.{handshake_key, request_ends, handshake_response}
use libuv_server.WebSocket.Handshake.Exact.{handshake_key-append}
use libuv_server.WebSocket.Connection.{WebSocketConnection, in_handshake}
use libuv_server.WebSocket.Receive.{send_handshake_response, on_data_received_in, on_data_received}
use libuv_server.WebSocket.Receive.Answer.{receive_handshake-key}
use libuv_server.WebSocket.Receive.Reads.{receive_all, receive_all-step, request_ends-less}

-- The responses to a handshake given to `uv_write`, in order.
abbrev pub answers : Calls → List Bytes
answers [] = []
answers (write_handshake bytes r ∷ cs) = answers cs ++ bytes ∷ []
answers (_ ∷ cs) = answers cs

request_ends-more :
    (text more : Bytes) → request_ends text ≡ true → request_ends (text ++ more) ≡ true
request_ends-more text more h = elim (Bool-cases (request_ends (text ++ more))) [
  | inl e ↦ e
  | inr n ↦ let n' = request_ends-less text more n in cc
]

-- A connection in its handshake that collected a whole request with this key, and maybe more.
record IsAnswered (key : Bytes) (c : WebSocketConnection) : Type 0 where
  waiting : c.state ≡ in_handshake
  ended : (more : Bytes) → request_ends (c.handshake_buffer ++ more) ≡ true
  keyed : (more : Bytes) → handshake_key (c.handshake_buffer ++ more) ≡ some key

module _ (uv : Uv) (sha1 : Bytes → Bytes) (server : TcpServer) (key : Bytes) where
  -- One read more is answered like the request.
  answer_again : WebSocketConnection → Bytes → WebSocketConnection
  answer_again c bytes =
      send_handshake_response uv sha1 (record c { handshake_buffer = c.handshake_buffer ++ bytes })
        key

  read_again :
      (c : WebSocketConnection) (bytes : Bytes)
      → IsAnswered key c
      → on_data_received uv sha1 server c bytes ≡ some (answer_again c bytes)
  unfolding on_data_received_in answer_again
  read_again c bytes v =
      ap (λ st. on_data_received_in st uv sha1 server c bytes) v.waiting
      ∙ ap some (
          receive_handshake-key uv sha1 c bytes (c.handshake_buffer ++ bytes) key refl
            (v.ended bytes) (v.keyed bytes))

  answer_again-IsAnswered :
      (c : WebSocketConnection) (bytes : Bytes)
      → IsAnswered key c
      → IsAnswered key (answer_again c bytes)
  unfolding answer_again send_handshake_response
  answer_again-IsAnswered c bytes v = record {
    waiting = v.waiting;
    ended = λ more. rw (append_assoc c.handshake_buffer bytes more) (v.ended (bytes ++ more));
    keyed = λ more. rw (append_assoc c.handshake_buffer bytes more) (v.keyed (bytes ++ more));
  }

  answered_again :
      (reads : List Bytes) (c : WebSocketConnection)
      → IsAnswered key c
      → (d : WebSocketConnection) × (receive_all uv sha1 server c reads ≡ some d)
        × (answers d.tcp.calls
            ≡ answers c.tcp.calls ++ map (λ (r : Bytes). handshake_response sha1 key) reads)
        × (d.parser ≡ c.parser)
        × (delivered d.tcp.calls ≡ delivered c.tcp.calls)
        × (d.state ≡ in_handshake)
  unfolding receive_all answer_again send_handshake_response
  answered_again [] c v = (c, refl, sym (append-nil (answers c.tcp.calls)), refl, refl, v.waiting)
  answered_again (bytes ∷ reads) c v =
      let (d, ran, all, p, m, w) =
        answered_again reads (answer_again c bytes) (answer_again-IsAnswered c bytes v) in
      (
        d,
        receive_all-step uv sha1 server c _ bytes reads (read_again c bytes v) ∙ ran,
        all ∙ append_assoc (answers c.tcp.calls) (handshake_response sha1 key ∷ []) _,
        p,
        m,
        w,
      )

  -- Until libuv reports the end of the write of the response to a request of fewer than 2^64 bytes, a
  -- connection answers every further read with that same response again, whatever the bytes are: they
  -- reach neither the parser of frames nor the message callback, and the connection stays in its
  -- handshake.
  pub early_reads_answered_again :
      (reads : List Bytes) (c : WebSocketConnection)
      → c.state ≡ in_handshake
      → length c.handshake_buffer < 2 ^ 64
      → request_ends c.handshake_buffer ≡ true
      → handshake_key c.handshake_buffer ≡ some key
      → (d : WebSocketConnection) × (receive_all uv sha1 server c reads ≡ some d)
        × (answers d.tcp.calls
            ≡ answers c.tcp.calls ++ map (λ (r : Bytes). handshake_response sha1 key) reads)
        × (d.parser ≡ c.parser)
        × (delivered d.tcp.calls ≡ delivered c.tcp.calls)
        × (d.state ≡ in_handshake)
  early_reads_answered_again reads c state short ends found = answered_again reads c (record {
    waiting = state;
    ended = λ more. request_ends-more c.handshake_buffer more ends;
    keyed = λ more. handshake_key-append c.handshake_buffer more key short found;
  })
