-- ===== src/WebSocket/Receive/Answer.antt =====
-- src/uv_net/websocket_connection.cpp: when the request of a handshake is answered.
use libuv_server.Prelude.{◌^◌, ◌<◌, ◌≡◌, refl, ap, ◌∙◌, true, some, ◌++◌, length, Bytes}
use libuv_server.Uv.{Uv}
use libuv_server.Tcp.State.{TcpServer}
use libuv_server.WebSocket.Handshake.{key_header, crlf, handshake_key, request_ends}
use libuv_server.WebSocket.Handshake.Request.{IsAbsent, request, handshake_key-request}
use libuv_server.WebSocket.Connection.{WebSocketConnection, in_handshake}
use libuv_server.WebSocket.Receive.{
  send_handshake_response, parse_handshake, receive_handshake, on_data_received_in,
  on_data_received,
}

parse_handshake-key :
    (uv : Uv) (sha1 : Bytes → Bytes) (c : WebSocketConnection) (text key : Bytes)
    → handshake_key text ≡ some key
    → (parse_handshake uv sha1 c text).0 ≡ send_handshake_response uv sha1 c key
unfolding parse_handshake
parse_handshake-key uv sha1 c text key e = rw (e, parse_handshake) refl

pub receive_handshake-key :
    (uv : Uv) (sha1 : Bytes → Bytes) (c : WebSocketConnection) (bytes text key : Bytes)
    → c.handshake_buffer ++ bytes ≡ text
    → request_ends text ≡ true
    → handshake_key text ≡ some key
    → receive_handshake uv sha1 c bytes
      ≡ send_handshake_response uv sha1 (record c { handshake_buffer = text }) key
unfolding receive_handshake
receive_handshake-key uv sha1 c bytes text key e ends found =
    rw (e, ends) (parse_handshake-key uv sha1 (record c { handshake_buffer = text }) text key found)

-- The read with which the request of a handshake is complete is answered with the response to the
-- key of the request, however the request was cut into reads, if the header of the key stands
-- nowhere before its line and the key has no line break.
pub request_answered :
    (uv : Uv) (sha1 : Bytes → Bytes) (server : TcpServer) (c : WebSocketConnection)
    (bytes before key after : Bytes)
    → c.state ≡ in_handshake
    → c.handshake_buffer ++ bytes ≡ request before key after
    → request_ends (request before key after) ≡ true
    → IsAbsent key_header before (key_header ++ (key ++ (crlf ++ after)))
    → IsAbsent crlf key (crlf ++ after)
    → length key < 2 ^ 64
    → on_data_received uv sha1 server c bytes
      ≡ some (
          send_handshake_response uv sha1
            (record c { handshake_buffer = request before key after })
            key)
unfolding on_data_received_in
request_answered uv sha1 server c bytes before key after state e ends absent no_break short =
    ap (λ st. on_data_received_in st uv sha1 server c bytes) state
    ∙ ap some (
        receive_handshake-key uv sha1 c bytes (request before key after) key e ends
          (handshake_key-request before key after absent no_break short))
