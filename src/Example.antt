-- ===== src/Example.antt =====
-- example/config_example.cpp and example/config_socket_example.cpp: servers with settings of their
-- own, from their creation to the call of `uv_run`. What is logged is a list of labels with numbers.
pub mod Running
pub mod Report
use libuv_server.Prelude.{Bool, true, false, List, [], ◌∷◌, ℤ, pos, Bytes, codes}
use libuv_server.Config.{
  ServerConfig, default_config, set_read_buffer_size, set_write_buffer_size, set_max_connections,
  set_connection_read_timeout, set_heartbeat_interval, set_max_send_queue_size, set_tcp_no_delay,
}
use libuv_server.Tcp.State.{TcpServer}
use libuv_server.Tcp.Server.{make_server, start_server, destroy_server}

-- The configuration of the second server of config_example.cpp.
abbrev pub custom_config : ServerConfig
custom_config =
    let c = set_read_buffer_size default_config 16384 in
    let c = set_write_buffer_size c 16384 in
    let c = set_max_connections c 5000 in
    let c = set_connection_read_timeout c (pos 15000) in
    let c = set_heartbeat_interval c (pos 30000) in set_max_send_queue_size c 2000

-- The servers of config_example.cpp; the first and the third have the default settings.
abbrev pub server1 : TcpServer
server1 = make_server default_config

abbrev pub server2 : TcpServer
server2 = make_server custom_config

abbrev pub server3 : TcpServer
server3 = make_server default_config

-- `Start` of the servers, where the calls of `uv_tcp_bind` return `bound1` to `bound3`.
unfoldable pub config_example : ℤ → ℤ → ℤ → List TcpServer
config_example bound1 bound2 bound3 =
    (start_server bound1 server1).0
    ∷ (start_server bound2 server2).0
    ∷ (start_server bound3 server3).0
    ∷ []

-- What config_example.cpp logs about a server.
abbrev pub logged_settings : TcpServer → List (Bytes × ℤ)
logged_settings server =
    (codes "  Read Buffer Size: ", pos server.config.read_buffer_size)
    ∷ (codes "  Write Buffer Size: ", pos server.config.write_buffer_size)
    ∷ (codes "  Max Connections: ", pos server.config.max_connections)
    ∷ (codes "  Connection Read Timeout: ", server.config.connection_read_timeout)
    ∷ (codes "  Heartbeat Interval: ", server.config.heartbeat_interval)
    ∷ []

-- The configurations of config_socket_example.cpp.
abbrev pub tcp_config : ServerConfig
tcp_config =
    let c = set_read_buffer_size default_config 16384 in
    let c = set_write_buffer_size c 16384 in set_tcp_no_delay c true

abbrev pub web_socket_config : ServerConfig
web_socket_config =
    let c = set_read_buffer_size default_config 32768 in
    let c = set_write_buffer_size c 32768 in set_tcp_no_delay c false

-- config_socket_example.cpp up to `uv_run`: each server is destroyed at the end of its block.
unfoldable pub config_socket_example : ℤ → ℤ → List TcpServer
config_socket_example bound1 bound2 =
    destroy_server (start_server bound1 (make_server tcp_config)).0
    ∷ destroy_server (start_server bound2 (make_server web_socket_config)).0
    ∷ []
