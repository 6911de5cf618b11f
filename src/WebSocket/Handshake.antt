-- ===== src/WebSocket/Handshake.antt =====
-- src/uv_net/websocket_connection.cpp: `ParseHandshake`, `GenerateResponseKey` and the text of
-- `SendHandshakeResponse`. SHA-1 is OpenSSL's and is an argument.
pub mod Request
pub mod Exact
use libuv_server.Prelude.{
  ℕ, suc, ◌+◌, ◌-◌, ◌%◌, ◌^◌, Bool, true, false, ◌&&◌, Option, none, some, [], ◌∷◌, ◌++◌, ◌==◌,
  if◌then◌else◌, take, drop, Bytes, codes,
}
use libuv_server.Base64.{base64_encode}

-- The text begins with the pattern.
abbrev pub is_prefix : Bytes → Bytes → Bool
is_prefix [] text = true
is_prefix (p ∷ ps) [] = false
is_prefix (p ∷ ps) (c ∷ cs) = p == c && is_prefix ps cs

-- The place of the first occurrence of a pattern, counted from `i` at the start of the text.
unfoldable pub search_from : Bytes → Bytes → ℕ → Option ℕ
search_from pattern [] i = if is_prefix pattern [] then some i else none
search_from pattern (c ∷ cs) i =
    let later = search_from pattern cs (suc i) in
    if is_prefix pattern (c ∷ cs) then some i else later

-- `std::string::find` from `start` on.
abbrev pub find : Bytes → Bytes → ℕ → Option ℕ
find text pattern start = search_from pattern (drop start text) start

-- `std::string::substr`.
abbrev pub substr : Bytes → ℕ → ℕ → Bytes
substr text start count = take count (drop start text)

abbrev pub key_header : Bytes
key_header = codes "Sec-WebSocket-Key: "

abbrev pub crlf : Bytes
crlf = 13 ∷ 10 ∷ []

abbrev pub magic_string : Bytes
magic_string = codes "258EAFA5-E914-47DA-95CA-C5AB0DC85B11"

-- The key that `ParseHandshake` cuts out of the request; `none` where it returns false. The length
-- is a difference of `size_t` values.
unfoldable pub handshake_key : Bytes → Option Bytes
handshake_key handshake_data = elim (find handshake_data key_header 0) [
  | none ↦ none
  | some key_pos ↦ elim (find handshake_data crlf key_pos) [
    | none ↦ none
    | some key_end ↦
        some (substr handshake_data (key_pos + 19) ((key_end + 2 ^ 64 - (key_pos + 19)) % 2 ^ 64))
  ]
]

-- The test of `OnDataReceived` for the end of the request.
unfoldable pub request_ends : Bytes → Bool
request_ends handshake_buffer = elim (search_from (crlf ++ crlf) handshake_buffer 0) [
  | none ↦ false
  | some i ↦ true
]

unfoldable pub generate_response_key : (Bytes → Bytes) → Bytes → Bytes
generate_response_key sha1 sec_websocket_key =
    base64_encode (sha1 (sec_websocket_key ++ magic_string))

unfoldable pub handshake_response : (Bytes → Bytes) → Bytes → Bytes
handshake_response sha1 sec_websocket_key =
    (codes "HTTP/1.1 101 Switching Protocols" ++ crlf)
    ++ (codes "Upgrade: websocket" ++ crlf)
    ++ (codes "Connection: Upgrade" ++ crlf)
    ++ (codes "Sec-WebSocket-Accept: "
        ++ generate_response_key sha1 sec_websocket_key
        ++ crlf
        ++ crlf)
