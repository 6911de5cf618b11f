-- ===== src/Echo/Startup.antt =====
-- example/echo_server.cpp and example/ws_echo_server.cpp: `main` up to the call of `uv_run`, which a
-- program does not come to where it cannot do without a server that did not start.
use libuv_server.Prelude.{ℕ, ◌≡◌, not, if◌then◌else◌, ◌==ℤ◌, ℤ, pos, arith}
use libuv_server.Tcp.State.{TcpServer}
use libuv_server.Tcp.Server.{start_server}
use libuv_server.Udp.{UdpServer}
use libuv_server.Udp as Udp
use libuv_server.Tcp.Server.System.{idle}
use libuv_server.Echo.{tcp_server, udp_server, ws_server}
use libuv_server.Echo.Main.{Main, set_up}

-- `main` returns a code at once, or runs the loop with its servers.
pub data Outcome : Type 0 where
  exits : ℕ → Outcome
  runs_echo : Main → UdpServer → Outcome
  runs_ws_echo : TcpServer → Outcome

-- The arguments are what the calls of `uv_tcp_bind` and `uv_udp_bind` return.
unfoldable pub echo_main : ℤ → ℤ → ℤ → Outcome
echo_main tcp_bound udp_bound ws_bound =
    let (server, started) = start_server tcp_bound tcp_server in
    if not started
    then exits 1
    else runs_echo (record (set_up ws_bound) { tcp = idle server })
        (Udp.start_server udp_bound udp_server).0

unfoldable pub ws_echo_main : ℤ → Outcome
ws_echo_main bound =
    let (server, started) = start_server bound ws_server in
    if not started then exits 1 else runs_ws_echo server

-- How many sockets the servers of a program have when its loop runs; none where it does not.
abbrev pub sockets : Outcome → ℕ × ℕ × ℕ
sockets (exits code) = (0, 0, 0)
sockets (runs_echo m udp) = (m.tcp.server.listeners, udp.sockets, m.ws.server.listeners)
sockets (runs_ws_echo server) = (0, 0, server.listeners)

abbrev pub one_if_bound : ℤ → ℕ
one_if_bound bound = if bound ==ℤ pos 0 then 1 else 0

-- A program runs exactly if the server that it cannot do without is bound, and then has one socket
-- for each server that is.
sockets-echo_main :
    (tcp_bound udp_bound ws_bound bound : ℤ)
    → (sockets (echo_main tcp_bound udp_bound ws_bound) ≡ (
        if tcp_bound ==ℤ pos 0
        then (1, one_if_bound udp_bound, one_if_bound ws_bound)
        else (0, 0, 0)))
      × (sockets (ws_echo_main bound) ≡ (0, 0, one_if_bound bound))
unfolding echo_main ws_echo_main start_server Udp.start_server
sockets-echo_main tcp_bound udp_bound ws_bound bound = (ground arith, ground arith)
