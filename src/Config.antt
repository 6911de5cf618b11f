-- ===== src/Config.antt =====
-- include/uv_net/server_config.h: the settings of a server, with their defaults.
-- `size_t` fields are numbers, `int64_t` fields are integers.
use libuv_server.Prelude.{ℕ, Bool, true, ℤ, pos}

pub record ServerConfig : Type 0 where
  pub read_buffer_size : ℕ
  pub write_buffer_size : ℕ
  pub max_connections : ℕ
  pub max_send_queue_size : ℕ
  pub max_package_size : ℕ
  pub connection_read_timeout : ℤ
  pub heartbeat_interval : ℤ
  pub tcp_no_delay : Bool

-- The constructor.
abbrev pub default_config : ServerConfig
default_config = record {
  read_buffer_size = 8192;
  write_buffer_size = 8192;
  max_connections = 10000;
  max_send_queue_size = 1000;
  max_package_size = 65536;
  connection_read_timeout = pos 30000;
  heartbeat_interval = pos 60000;
  tcp_no_delay = true;
}

-- The setters; the getters are the fields.
abbrev pub set_read_buffer_size : ServerConfig → ℕ → ServerConfig
set_read_buffer_size c size = record c { read_buffer_size = size }

abbrev pub set_write_buffer_size : ServerConfig → ℕ → ServerConfig
set_write_buffer_size c size = record c { write_buffer_size = size }

abbrev pub set_max_connections : ServerConfig → ℕ → ServerConfig
set_max_connections c limit = record c { max_connections = limit }

abbrev pub set_max_send_queue_size : ServerConfig → ℕ → ServerConfig
set_max_send_queue_size c size = record c { max_send_queue_size = size }

abbrev pub set_connection_read_timeout : ServerConfig → ℤ → ServerConfig
set_connection_read_timeout c timeout_ms = record c { connection_read_timeout = timeout_ms }

abbrev pub set_heartbeat_interval : ServerConfig → ℤ → ServerConfig
set_heartbeat_interval c interval_ms = record c { heartbeat_interval = interval_ms }

abbrev pub set_max_package_size : ServerConfig → ℕ → ServerConfig
set_max_package_size c size = record c { max_package_size = size }

abbrev pub set_tcp_no_delay : ServerConfig → Bool → ServerConfig
set_tcp_no_delay c enable = record c { tcp_no_delay = enable }
