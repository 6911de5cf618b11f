-- ===== src/Tcp/Server.antt =====
-- src/uv_net/tcp_server.cpp: the counters and the callbacks of a server.
pub mod Limits
pub mod Listener
pub mod System
use libuv_server.Prelude.{
  ℕ, ◌+◌, ◌-◌, ◌%◌, ◌^◌, Bool, true, false, not, Option, none, some, ◌∷◌, [], ltb, leb, ◌==ℤ◌, ℤ,
  pos, is_negative, gtb_ℤ, signed32, if◌then◌else◌, Bytes, List,
}
use libuv_server.Config.{ServerConfig}
use libuv_server.BufferPool.{BufferPool, make_pool, acquire_buffer, release_buffer, get_buffer_size}
use libuv_server.Protocol.{ServerProtocol}
use libuv_server.Connection.{CallbackOpen, CallbackMessage, CallbackClose, Request}
use libuv_server.Uv.{Uv, Call, opened, closed, close_bare}
use libuv_server.Tcp.State.{TcpConnection, TcpServer, make_connection, peer}
use libuv_server.Tcp.Connection.{start_heartbeat, serve, on_data_received}

-- The constructor.
abbrev pub make_server : ServerConfig → TcpServer
make_server config = record {
  listeners = 0;
  on_open = none;
  on_message = none;
  on_close = none;
  config = config;
  server_protocol = none;
  buffer_pool = make_pool config.read_buffer_size;
  current_connections = 0;
  conn_id_counter = 0;
}

abbrev pub set_on_open : TcpServer → Option CallbackOpen → TcpServer
set_on_open s cb = record s { on_open = cb }

abbrev pub set_on_message : TcpServer → Option CallbackMessage → TcpServer
set_on_message s cb = record s { on_message = cb }

abbrev pub set_on_close : TcpServer → Option CallbackClose → TcpServer
set_on_close s cb = record s { on_close = cb }

abbrev pub set_config : TcpServer → ServerConfig → TcpServer
set_config s config = record s { config = config }

abbrev pub set_server_protocol : TcpServer → Option ServerProtocol → TcpServer
set_server_protocol s protocol = record s { server_protocol = protocol }

-- `current_connections_++` and the guarded `--`, on a `size_t`.
unfoldable pub count_opened : TcpServer → TcpServer
count_opened s = record s { current_connections = (s.current_connections + 1) % 2 ^ 64 }

unfoldable pub count_closed : TcpServer → TcpServer
count_closed s =
    if ltb 0 s.current_connections
    then record s { current_connections = s.current_connections - 1 }
    else s

-- What `Start` and the callbacks use of the class that `CreateConnection` makes: TcpConnection or
-- WebSocketConnection, with its overriding methods. `serve` runs what a user's callback asks for.
pub record ConnectionClass : Type 1 where
  pub Conn : Type 0
  pub create : ℕ → Conn
  pub base : Conn → TcpConnection
  pub with_base : Conn → TcpConnection → Conn
  pub start : TcpServer → ℕ → Conn → Conn
  pub handle_requests : TcpServer → ℕ → List Request → Conn → Conn
  pub receive : TcpServer → ℕ → Conn → Bytes → Option Conn

abbrev pub tcp_class : Uv → ConnectionClass
tcp_class uv = record {
  Conn = TcpConnection;
  create = make_connection;
  base = λ c. c;
  with_base = λ c t. t;
  start = start_heartbeat;
  handle_requests = serve uv;
  receive = on_data_received uv;
}

-- The socket options of an accepted connection: read buffer, write buffer, TCP_NODELAY.
pub record SocketOptions : Type 0 where
  pub read_buf_size : ℤ
  pub write_buf_size : ℤ
  pub no_delay : ℤ

abbrev pub socket_options : ServerConfig → SocketOptions
socket_options config = record {
  read_buf_size = signed32 (config.read_buffer_size % 2 ^ 32);
  write_buf_size = signed32 (config.write_buffer_size % 2 ^ 32);
  no_delay = if config.tcp_no_delay then pos 1 else pos 0;
}

module _ (k : ConnectionClass) where
  open k use {Conn, create, base, with_base, start, handle_requests, receive}

  -- One more call in the history of a connection.
  abbrev pub note : Call → Conn → Conn
  note call c = with_base c (record (base c) { calls = call ∷ (base c).calls })

  -- `OnNewConnection`: the count, then the user's callback.
  unfoldable pub on_new_connection : ℕ → TcpServer → Conn → TcpServer × Conn
  on_new_connection now s c = (
    count_opened s,
    elim s.on_open [
      | none ↦ c
      | some callback ↦
          handle_requests (count_opened s) now (callback (peer (base c))) (note opened c)
    ],
  )

  -- `OnClose`, and the connection as the callback leaves it.
  unfoldable pub on_close : ℕ → TcpServer → Conn → TcpServer × Conn
  on_close now s c = (
    count_closed s,
    elim s.on_close [
      | none ↦ c
      | some callback ↦
          handle_requests (count_closed s) now (callback (peer (base c))) (note closed c)
    ],
  )

  -- The callback of `uv_listen`. `accepted` is what `uv_accept` returns, `from` the address that
  -- `uv_tcp_getpeername` gives; the options are set where the handle has a descriptor.
  unfoldable pub on_connection :
      ℕ → ℤ → ℤ → Bytes × ℕ → TcpServer → TcpServer × Option (Conn × SocketOptions)
  on_connection now status accepted (ip, port) s =
      if is_negative status
      then (s, none)
      else if leb s.config.max_connections s.current_connections
      then (s, none)
      else if not (accepted ==ℤ pos 0)
      then (s, none)
      else greet (on_new_connection now counted (start counted now conn))
    where
      counted : TcpServer
      counted = record s { conn_id_counter = (s.conn_id_counter + 1) % 2 ^ 32 }

      conn : Conn
      conn =
          with_base (create now)
            (record (base (create now)) { ip = ip; port = port; conn_id = s.conn_id_counter })

      greet : TcpServer × Conn → TcpServer × Option (Conn × SocketOptions)
      greet (s', c) = (s', some (c, socket_options s.config))

  -- The allocation callback of `uv_read_start`: the buffer and the length that libuv may fill.
  unfoldable pub on_alloc : TcpServer → (ℕ × ℕ) × TcpServer
  on_alloc s =
      let (buffer, pool) = acquire_buffer s.buffer_pool in
      ((buffer, s.config.read_buffer_size), record s { buffer_pool = pool })

  -- The read callback: `nread` bytes in `bytes` on success. `none` where the connection does not
  -- come back from the data.
  unfoldable pub on_read : ℕ → ℤ → Bytes → ℕ → TcpServer → Conn → Option (TcpServer × Conn)
  on_read now nread bytes buffer s c =
      if gtb_ℤ nread 0
      then elim (receive s now c bytes) [ none ↦ none | some c' ↦ some (released, c') ]
      else some (released, note close_bare c)
    where
      released : TcpServer
      released = record s { buffer_pool = release_buffer s.buffer_pool buffer }

-- `Start`: `bound` is what `uv_tcp_bind` returns.
unfoldable pub start_server : ℤ → TcpServer → TcpServer × Bool
start_server bound s =
    if not (bound ==ℤ pos 0) then (s, false) else (record s { listeners = s.listeners + 1 }, true)

-- The destructor closes the listening sockets. `loops_` is empty: nothing adds to it.
unfoldable pub destroy_server : TcpServer → TcpServer
destroy_server s = record s { listeners = 0 }
