-- ===== src/Tcp/State.antt =====
-- include/uv_net/tcp_connection.h and include/uv_net/tcp_server.h: the fields of a connection and of
-- a server.
use libuv_server.Prelude.{ℕ, Bool, false, Option, List, [], Bytes}
use libuv_server.Config.{ServerConfig}
use libuv_server.BufferPool.{BufferPool}
use libuv_server.Protocol.{ServerProtocol}
use libuv_server.Connection.{Peer, CallbackOpen, CallbackMessage, CallbackClose}
use libuv_server.Uv.{Calls}

-- `calls` stands for `handle_` and `heartbeat_timer_`: what was done with them so far. The times are
-- the 64-bit values of `uv_now`.
pub record TcpConnection : Type 0 where
  pub calls : Calls
  pub ip : Bytes
  pub port : ℕ
  pub conn_id : ℕ
  pub is_closing : Bool
  pub is_closing_gracefully : Bool
  -- Front of the queue first.
  pub send_queue : List Bytes
  pub is_writing : Bool
  pub last_active_time : ℕ
  pub create_time : ℕ
  pub is_heartbeat_running : Bool
  pub recv_buffer : Bytes

-- The constructor at time `now`.
abbrev pub make_connection : ℕ → TcpConnection
make_connection now = record {
  calls = [];
  ip = [];
  port = 0;
  conn_id = 0;
  is_closing = false;
  is_closing_gracefully = false;
  send_queue = [];
  is_writing = false;
  last_active_time = now;
  create_time = now;
  is_heartbeat_running = false;
  recv_buffer = [];
}

-- `GetIP`, `GetPort` and `GetConnId`.
abbrev pub peer : TcpConnection → Peer
peer c = record { ip = c.ip; port = c.port; conn_id = c.conn_id }

-- An empty callback or protocol is `none`. `listeners` counts the listening sockets.
pub record TcpServer : Type 0 where
  pub listeners : ℕ
  pub on_open : Option CallbackOpen
  pub on_message : Option CallbackMessage
  pub on_close : Option CallbackClose
  pub config : ServerConfig
  pub server_protocol : Option ServerProtocol
  pub buffer_pool : BufferPool
  pub current_connections : ℕ
  pub conn_id_counter : ℕ
