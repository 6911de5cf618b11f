-- ===== src/Udp.antt =====
-- src/uv_net/udp_connection.cpp and src/uv_net/udp_server.cpp: datagrams, each with a connection of
-- its own. Log lines are left out.
pub mod Delivery
pub mod Pool
use libuv_server.Prelude.{
  ℕ, ◌+◌, ◌*◌, ◌/◌, ◌%◌, Bool, true, false, Option, none, some, List, [], ◌∷◌, ◌++◌, ℤ, pos, gtb_ℤ,
  ◌==ℤ◌, not, to_size, take, if◌then◌else◌, Bytes,
}
use libuv_server.Config.{ServerConfig}
use libuv_server.BufferPool.{BufferPool, make_pool, acquire_buffer, release_buffer}
use libuv_server.Protocol.{ServerProtocol, package_less, package_full, package_error}
use libuv_server.Connection.{
  Peer, Request, send_bytes, close_it, CallbackOpen, CallbackMessage, CallbackClose,
}

pub data Family : Type 0 where
  af_inet af_inet6 af_other : Family

-- A socket address: its family, the text that `uv_ip4_name` or `uv_ip6_name` writes for it, and the
-- two bytes of the port in network order.
pub record SockAddr : Type 0 where
  pub sa_family : Family
  pub name : Bytes
  pub port_high : ℕ
  pub port_low : ℕ

-- `outbox` holds what was given to `uv_udp_send`, in order.
pub record UdpConnection : Type 0 where
  pub addr : SockAddr
  pub ip : Bytes
  pub port : ℕ
  pub conn_id : ℕ
  pub outbox : List (Bytes × SockAddr)

-- The two bytes of a port as a number on a little-endian machine.
abbrev pub raw_port : SockAddr → ℕ
raw_port a = a.port_high + 256 * a.port_low

-- The constructor. `ip_buf` is what the array holds before it is written.
unfoldable pub make_connection : Bytes → SockAddr → UdpConnection
make_connection ip_buf a = elim a.sa_family [
  | af_inet ↦ record { addr = a; ip = a.name; port = raw_port a; conn_id = 0; outbox = [] }
  | af_inet6 ↦ record { addr = a; ip = a.name; port = raw_port a; conn_id = 0; outbox = [] }
  | af_other ↦ record { addr = a; ip = ip_buf; port = 0; conn_id = 0; outbox = [] }
]

-- `ntohs` on a little-endian machine.
unfoldable pub ntohs : ℕ → ℕ
ntohs n = n % 256 * 256 + n / 256 % 256

-- `Send`.
unfoldable pub send : UdpConnection → Bytes → UdpConnection
send c bytes = record c { outbox = c.outbox ++ (bytes, c.addr) ∷ [] }

-- `Close`.
abbrev pub close : UdpConnection → UdpConnection
close c = c

-- `GetIP`, `GetPort` and `GetConnId`.
abbrev pub peer : UdpConnection → Peer
peer c = record { ip = c.ip; port = ntohs c.port; conn_id = c.conn_id }

-- What a callback asks for, in order.
unfoldable pub serve : List Request → UdpConnection → UdpConnection
serve [] c = c
serve (send_bytes bytes ∷ rest) c = serve rest (send c bytes)
serve (close_it ∷ rest) c = serve rest (close c)

-- `sockets` counts the sockets that receive.
pub record UdpServer : Type 0 where
  pub sockets : ℕ
  pub on_open : Option CallbackOpen
  pub on_message : Option CallbackMessage
  pub on_close : Option CallbackClose
  pub config : ServerConfig
  pub server_protocol : Option ServerProtocol
  pub buffer_pool : BufferPool

-- The constructor.
abbrev pub make_server : ServerConfig → UdpServer
make_server config = record {
  sockets = 0;
  on_open = none;
  on_message = none;
  on_close = none;
  config = config;
  server_protocol = none;
  buffer_pool = make_pool config.read_buffer_size;
}

abbrev pub set_on_open : UdpServer → Option CallbackOpen → UdpServer
set_on_open s cb = record s { on_open = cb }

abbrev pub set_on_message : UdpServer → Option CallbackMessage → UdpServer
set_on_message s cb = record s { on_message = cb }

abbrev pub set_on_close : UdpServer → Option CallbackClose → UdpServer
set_on_close s cb = record s { on_close = cb }

abbrev pub set_server_protocol : UdpServer → Option ServerProtocol → UdpServer
set_server_protocol s protocol = record s { server_protocol = protocol }

-- The verdict of the parser on a datagram.
unfoldable pub deliver_package :
    CallbackMessage → ServerProtocol → UdpConnection → Bytes → UdpConnection
deliver_package callback protocol c bytes = elim (protocol.parse_package bytes).status [
  | package_full ↦
      serve (callback (peer c) (take (to_size (protocol.parse_package bytes).package_len) bytes)) c
  | package_error ↦ c
  | package_less ↦ c
]

-- `OnMessage`.
unfoldable pub on_message : UdpServer → UdpConnection → Bytes → UdpConnection
on_message s c bytes = elim s.on_message [
  | none ↦ c
  | some callback ↦ elim s.server_protocol [
    | none ↦ serve (callback (peer c) bytes) c
    | some protocol ↦ deliver_package callback protocol c bytes
  ]
]

-- The allocation callback of `uv_udp_recv_start`: the buffer and the length that libuv may fill.
unfoldable pub on_alloc : UdpServer → (ℕ × ℕ) × UdpServer
on_alloc s =
    let (buffer, pool) = acquire_buffer s.buffer_pool in
    ((buffer, s.config.read_buffer_size), record s { buffer_pool = pool })

-- The receive callback: the server and what was sent in answer.
unfoldable pub on_recv :
    Bytes → ℤ → Bytes → ℕ → Option SockAddr → UdpServer → UdpServer × List (Bytes × SockAddr)
on_recv ip_buf nread bytes buffer addr s = (
  record s { buffer_pool = release_buffer s.buffer_pool buffer },
  elim addr [
    | none ↦ []
    | some a ↦
        let c = on_message s (make_connection ip_buf a) bytes in
        if gtb_ℤ nread 0 then c.outbox else []
  ],
)

-- `Start`: `bound` is what `uv_udp_bind` returns.
unfoldable pub start_server : ℤ → UdpServer → UdpServer × Bool
start_server bound s =
    if not (bound ==ℤ pos 0) then (s, false) else (record s { sockets = s.sockets + 1 }, true)

-- The destructor closes the sockets.
abbrev pub destroy_server : UdpServer → UdpServer
destroy_server s = record s { sockets = 0 }
