-- ===== src/Connection.antt =====
-- include/uv_net/connection.h: what a user's callback sees of a connection, and what it may ask of
-- it. A callback is a function of what it sees; what it keeps between calls is not modelled.
use libuv_server.Prelude.{ℕ, List, Bytes}

-- `GetIP`, `GetPort` and `GetConnId`.
pub record Peer : Type 0 where
  pub ip : Bytes
  pub port : ℕ
  pub conn_id : ℕ

-- A call of `Send` or of `Close`.
pub data Request : Type 0 where
  send_bytes : Bytes → Request
  close_it : Request

-- The requests that the callback makes, in order.
abbrev pub CallbackOpen : Type 0
CallbackOpen = Peer → List Request

abbrev pub CallbackMessage : Type 0
CallbackMessage = Peer → Bytes → List Request

abbrev pub CallbackClose : Type 0
CallbackClose = Peer → List Request
