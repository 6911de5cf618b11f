-- ===== src/Echo.antt =====
-- example/echo_server.cpp and example/ws_echo_server.cpp: the callbacks of the echo servers. What
-- they do to `connection_count` is in Main.
pub mod Answers
pub mod Main
pub mod Conversation
pub mod Ending
pub mod Frames
pub mod Opening
pub mod Session
pub mod Startup
pub mod Talk
use libuv_server.Prelude.{
  ℕ, zero, suc, ◌+◌, ◌/◌, ◌%◌, Bool, true, false, Option, some, none, List, [], ◌∷◌, ◌++◌, ltb,
  if◌then◌else◌, take, Bytes, codes,
}
use libuv_server.Config.{default_config}
use libuv_server.Connection.{Request, send_bytes, CallbackOpen, CallbackMessage, CallbackClose}
use libuv_server.Tcp.State.{TcpServer}
use libuv_server.WebSocket.Server as WebSocketServers
use libuv_server.Tcp.Server.{make_server, set_on_open, set_on_message, set_on_close}
use libuv_server.Tcp.Connection.Accepting.{send_all}
use libuv_server.Udp.{UdpServer}
use libuv_server.Udp
use libuv_server.WebSocket.Handshake.{find}

-- `std::to_string` of a number, on fuel that the number itself bounds.
unfoldable pub to_digits : ℕ → ℕ → Bytes
to_digits zero n = []
to_digits (suc fuel) n =
    let higher = to_digits fuel (n / 10) in
    if ltb n 10 then (b'0' + n) ∷ [] else higher ++ (b'0' + n % 10) ∷ []

abbrev pub to_string : ℕ → Bytes
to_string n = to_digits (suc n) n

-- The loop of `TestHighThroughput` from `i` on, for the rounds that are left.
unfoldable pub bulk_from : ℕ → ℕ → List Bytes
bulk_from zero i = []
bulk_from (suc left) i = (codes "Bulk " ++ to_string i ++ 10 ∷ []) ∷ bulk_from left (suc i)

-- `TestHighThroughput`: the texts that it sends.
unfoldable pub test_high_throughput : List Bytes
test_high_throughput = bulk_from 100 0

abbrev pub tcp_on_open : CallbackOpen
tcp_on_open peer = send_bytes (take 22 (codes "Welcome! Type something.\n")) ∷ []

-- `SetOnClose` of both servers: nothing is sent.
abbrev pub on_close : CallbackClose
on_close peer = []

abbrev pub has_bulk : Bytes → Bool
has_bulk msg = elim (find msg (codes "bulk") 0) [ none ↦ false | some i ↦ true ]

-- The texts that the TCP server's callback sends for a message.
unfoldable pub answer : Bytes → List Bytes
answer bytes = bytes ∷ (if has_bulk bytes then test_high_throughput else [])

abbrev pub tcp_on_message : CallbackMessage
tcp_on_message peer bytes = send_all (answer bytes)

-- The TCP server as `main` sets it up.
abbrev pub tcp_server : TcpServer
tcp_server =
    set_on_close
      (set_on_message (set_on_open (make_server default_config) (some tcp_on_open))
        (some tcp_on_message))
      (some on_close)

abbrev pub udp_on_message : CallbackMessage
udp_on_message peer bytes = send_bytes bytes ∷ []

-- The UDP server as `main` sets it up.
abbrev pub udp_server : UdpServer
udp_server = Udp.set_on_message (Udp.make_server default_config) (some udp_on_message)

abbrev pub ws_on_open : CallbackOpen
ws_on_open peer = send_bytes (take 30 (codes "Welcome to WebSocket Echo Server!")) ∷ []

abbrev pub ws_on_message : CallbackMessage
ws_on_message peer bytes = send_bytes bytes ∷ []

-- The WebSocket server as `main` sets it up, in both programs.
abbrev pub ws_server : TcpServer
ws_server =
    set_on_close
      (set_on_message (set_on_open (WebSocketServers.make_server default_config) (some ws_on_open))
        (some ws_on_message))
      (some on_close)
