-- ===== src/WebSocket/Receive/Reads.antt =====
-- src/uv_net/websocket_connection.cpp: one read after the other, through the handshake and behind it.
use libuv_server.Prelude.{
  ℕ, suc, ◌≡◌, ◌≢◌, refl, ap, ◌∙◌, true, false, Option, none, some, List, [], ◌∷◌, ◌++◌,
  append_assoc, append-nil, arith, concat, Bytes, Option-cases, inl, inr,
}
use libuv_server.Uv.{Uv}
use libuv_server.Tcp.State.{TcpServer}
use libuv_server.WebSocket.Handshake.{is_prefix, search_from, request_ends, crlf}
use libuv_server.WebSocket.Connection.{
  WebSocketConnection, State, in_handshake, in_open, in_closing, in_closed, close, write_front,
  try_send, send_frame,
}
use libuv_server.WebSocket.Receive.{
  parse_frame, receive_handshake, on_data_received_in, on_data_received,
}
use libuv_server.WebSocket.Receive.Frames.{parse_frames}
use libuv_server.WebSocket.Rules.{parse_frame_rule}

-- `OnDataReceived` for the reads in order; `none` where one does not return.
unfoldable pub receive_all :
    Uv → (Bytes → Bytes) → TcpServer → WebSocketConnection → List Bytes → Option WebSocketConnection
receive_all uv sha1 server c [] = some c
receive_all uv sha1 server c (bytes ∷ rest) = elim (on_data_received uv sha1 server c bytes) [
  | none ↦ none
  | some c' ↦ receive_all uv sha1 server c' rest
]

-- A pattern that begins a text begins every longer one; so one that is not in the longer text is
-- not in the shorter.
is_prefix-append :
    (pattern text more : Bytes)
    → is_prefix pattern text ≡ true
    → is_prefix pattern (text ++ more) ≡ true
is_prefix-append [] text more h = refl
is_prefix-append (p ∷ ps) [] more h = cc
is_prefix-append (p ∷ ps) (c ∷ cs) more h = ground (arith, is_prefix-append ps cs more)

search_from-less :
    (pattern text more : Bytes) (i : ℕ)
    → search_from pattern (text ++ more) i ≡ none
    → search_from pattern text i ≡ none
unfolding search_from
search_from-less pattern [] [] i h = h
search_from-less pattern [] (c ∷ cs) i h = ground (arith, is_prefix-append pattern [] (c ∷ cs))
search_from-less pattern (c ∷ cs) more i h =
    ground (arith, is_prefix-append pattern (c ∷ cs) more, search_from-less pattern cs more (suc i))

pub request_ends-less :
    (text more : Bytes) → request_ends (text ++ more) ≡ false → request_ends text ≡ false
unfolding request_ends
request_ends-less text more h = elim (Option-cases (search_from (crlf ++ crlf) (text ++ more) 0)) [
  | inl n ↦ rw (search_from-less (crlf ++ crlf) text more 0 n, request_ends) refl
  | inr (i, n) ↦ let h' = rw (n, request_ends) at h in cc
]

module _ (uv : Uv) (sha1 : Bytes → Bytes) (server : TcpServer) where
  pub receive_all-step :
      (c d : WebSocketConnection) (bytes : Bytes) (rest : List Bytes)
      → on_data_received uv sha1 server c bytes ≡ some d
      → receive_all uv sha1 server c (bytes ∷ rest) ≡ receive_all uv sha1 server d rest
  unfolding receive_all
  receive_all-step c d bytes rest e = rw (e, receive_all) refl

  collects :
      (c : WebSocketConnection) (bytes : Bytes)
      → c.state ≡ in_handshake
      → request_ends (c.handshake_buffer ++ bytes) ≡ false
      → on_data_received uv sha1 server c bytes
        ≡ some (record c { handshake_buffer = c.handshake_buffer ++ bytes })
  unfolding on_data_received_in receive_handshake
  collects c bytes s h =
      ap (λ st. on_data_received_in st uv sha1 server c bytes) s ∙ ap some (rw h refl)

  -- In the handshake, the reads are collected for as long as the request has no end.
  pub receive_all-collects :
      (reads rest : List Bytes) (c : WebSocketConnection)
      → c.state ≡ in_handshake
      → request_ends (c.handshake_buffer ++ concat reads) ≡ false
      → receive_all uv sha1 server c (reads ++ rest)
        ≡ receive_all uv sha1 server
            (record c { handshake_buffer = c.handshake_buffer ++ concat reads })
            rest
  receive_all-collects [] rest c s h = rw (append-nil c.handshake_buffer) refl
  receive_all-collects (bytes ∷ reads) rest c s h =
      let split = append_assoc c.handshake_buffer bytes (concat reads) in
      let h' : request_ends ((c.handshake_buffer ++ bytes) ++ concat reads) ≡ false = rw split h in
      let d = record c { handshake_buffer = c.handshake_buffer ++ bytes } in
      receive_all-step c d bytes (reads ++ rest) (collects c bytes s (request_ends-less _ _ h'))
      ∙ receive_all-collects reads rest d s h'
      ∙ ap (λ b. receive_all uv sha1 server (record c { handshake_buffer = b }) rest) split

  -- Behind the handshake.
  abbrev IsBehind : WebSocketConnection → Type 0
  IsBehind c = c.state ≢ in_handshake

  close-IsBehind : (c : WebSocketConnection) → IsBehind c → IsBehind (close c)
  unfolding close
  close-IsBehind c v = ground arith

  write_front-IsBehind :
      (queue : List Bytes) (c : WebSocketConnection)
      → IsBehind c
      → IsBehind (write_front uv queue c)
  unfolding write_front
  write_front-IsBehind [] c v = v
  write_front-IsBehind (front ∷ rest) c v = ground arith

  send_frame-IsBehind :
      (c : WebSocketConnection) (bytes : Bytes) (opcode : ℕ)
      → IsBehind c
      → IsBehind (send_frame uv c bytes opcode)
  unfolding send_frame try_send
  send_frame-IsBehind c bytes opcode v = ground (arith, write_front-IsBehind _ _)

  parse_frame-IsBehind :
      (c : WebSocketConnection) (bytes : Bytes) {c' : WebSocketConnection}
      → IsBehind c
      → parse_frame uv server c bytes ≡ some c'
      → IsBehind c'
  parse_frame-IsBehind c bytes v e =
      parse_frame_rule uv server IsBehind close-IsBehind (λ c b o s. send_frame-IsBehind c b o)
        (λ c b v. v) (λ c v e. cc) (λ c p v. v) c bytes v e

  behind :
      (state : State) (c : WebSocketConnection) (bytes : Bytes)
      → state ≢ in_handshake
      → on_data_received_in state uv sha1 server c bytes ≡ parse_frame uv server c bytes
  unfolding on_data_received_in
  behind in_handshake c bytes v = absurd (v refl)
  behind in_open c bytes v = refl
  behind in_closing c bytes v = refl
  behind in_closed c bytes v = refl

  -- Behind the handshake, every read is one of frames.
  pub receive_all-parse_frames :
      (reads : List Bytes) (c : WebSocketConnection)
      → c.state ≢ in_handshake
      → receive_all uv sha1 server c reads ≡ parse_frames uv server c reads
  unfolding receive_all parse_frames
  receive_all-parse_frames [] c v = refl
  receive_all-parse_frames (bytes ∷ rest) c v =
      let same = behind c.state c bytes v in
      elim (Option-cases (parse_frame uv server c bytes)) [
        | inl n ↦ rw (same ∙ n, receive_all) (rw (n, parse_frames) refl)
        | inr (d, n) ↦
            rw (same ∙ n, receive_all)
              (rw (n, parse_frames)
                (receive_all-parse_frames rest d (parse_frame-IsBehind c bytes v n)))
      ]
