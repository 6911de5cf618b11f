-- ===== src/Echo/Main.antt =====
-- example/echo_server.cpp: the TCP and the WebSocket server on one loop, with the count of
-- connections that their callbacks share. The UDP server does not touch it.
mod Callbacks
mod Heard
pub mod Total
use libuv_server.Prelude.{ℕ, zero, suc, ◌+◌, ◌%◌, ◌^◌, ◌-◌, [], ℤ, pos, Bytes}
use libuv_server.Uv.{Uv, Calls, opens, goodbyes}
use libuv_server.Tcp.Server.{start_server, on_close, tcp_class}
use libuv_server.Tcp.Server.System
use libuv_server.WebSocket.Server.System as WebSocketSystem
use libuv_server.WebSocket.Server.{on_handshake_complete, on_handle_closed}
use libuv_server.Echo.{tcp_server, ws_server}

-- `connection_count` is the 32 bits of an `int`.
pub record Main : Type 0 where
  pub tcp : System.System
  pub ws : WebSocketSystem.System
  pub connection_count : ℕ

-- `connection_count++` and `--`.
abbrev pub count_up : ℕ → ℕ
count_up n = (n + 1) % 2 ^ 32

abbrev pub count_down : ℕ → ℕ
count_down n = (n + (2 ^ 32 - 1)) % 2 ^ 32

-- The function `k` times.
abbrev pub times : ℕ → (ℕ → ℕ) → ℕ → ℕ
times zero f n = n
times (suc k) f n = f (times k f n)

-- What the calls of `on_open_` and of `on_close_` that a step made for a connection do to the count:
-- the calls made for it before the step and after it say how often each was called.
abbrev pub count_calls : Calls → Calls → ℕ → ℕ
count_calls before after n =
    times (goodbyes after - goodbyes before) count_down
      (times (opens after - opens before) count_up n)

abbrev pub after_tcp : {uv : Uv} {s t : System.System} → System.Step uv s t → ℕ → ℕ
after_tcp (System.refuses s now status result from server e) n = n
after_tcp (System.accepts s now status result from server c options e) n = count_calls [] c.calls n
after_tcp (System.reads s before after c c' now nread bytes server e ran) n =
    count_calls c.calls c'.calls n
after_tcp (System.acts s before after c c' e a) n = count_calls c.calls c'.calls n
after_tcp {uv} (System.deletes s before after c now e h) n =
    count_calls c.calls (on_close (tcp_class uv) now s.server c).1.calls n

abbrev pub after_ws :
    {uv : Uv} {sha1 : Bytes → Bytes} {s t : WebSocketSystem.System}
    → WebSocketSystem.Step uv sha1 s t
    → ℕ
    → ℕ
after_ws (WebSocketSystem.refuses s now status result from server e) n = n
after_ws (WebSocketSystem.accepts s now status result from server c options e) n =
    count_calls [] c.tcp.calls n
after_ws (WebSocketSystem.reads s before after c c' now nread bytes server e ran) n =
    count_calls c.tcp.calls c'.tcp.calls n
after_ws (WebSocketSystem.acts s before after c c' e a) n = count_calls c.tcp.calls c'.tcp.calls n
after_ws {uv} {sha1} (WebSocketSystem.shakes_hands s before after c now e) n =
    count_calls c.tcp.calls (on_handshake_complete uv sha1 now s.server c).1.tcp.calls n
after_ws {uv} {sha1} (WebSocketSystem.deletes s before after c now e h) n =
    count_calls c.tcp.calls (on_handle_closed uv sha1 now s.server c).1.tcp.calls n

-- A callback of the loop for one of the servers or of their connections.
pub data Step (uv : Uv) (sha1 : Bytes → Bytes) : Main → Main → Type 0 where
  tcp_steps :
      (m : Main) {t : System.System} (st : System.Step uv m.tcp t)
      → Step uv sha1 m (record m { tcp = t; connection_count = after_tcp st m.connection_count })
  ws_steps :
      (m : Main) {t : WebSocketSystem.System} (st : WebSocketSystem.Step uv sha1 m.ws t)
      → Step uv sha1 m (record m { ws = t; connection_count = after_ws st m.connection_count })

pub data Reach (uv : Uv) (sha1 : Bytes → Bytes) (m : Main) : Main → Type 0 where
  at_start : Reach uv sha1 m m
  and_then : {k l : Main} → Reach uv sha1 m k → Step uv sha1 k l → Reach uv sha1 m l

-- Before `uv_run`, where the TCP server was started; `bound` is what the `uv_tcp_bind` of the
-- WebSocket server returned.
abbrev pub set_up : ℤ → Main
set_up bound = record {
  tcp = System.idle (start_server (pos 0) tcp_server).0;
  ws = WebSocketSystem.idle (start_server bound ws_server).0;
  connection_count = 0;
}
