-- ===== src/Echo/Talk/Stream.antt =====
-- example/echo_server.cpp and example/ws_echo_server.cpp: what a WebSocket client of the echo server
-- reads.
use libuv_server.Prelude.{◌≡◌, List, All}
use libuv_server.Uv.{Uv, accepted}
use libuv_server.WebSocket.Parser.{initial}
use libuv_server.WebSocket.Connection.{WebSocketConnection}
use libuv_server.WebSocket.Wire.{frames, IsSent}
use libuv_server.WebSocket.Receive.Client.{ClientFrame}
use libuv_server.Echo.Opening.{IsWired}
use libuv_server.Echo.Talk as Talking
use libuv_server.Echo.Talk.{Talk, replies}

-- Between two frames, with a reply accepted for each.
record IsReplied (fs : List ClientFrame) (c : WebSocketConnection) : Type 0 where
  wired : IsWired c
  between : c.parser ≡ initial
  replied : accepted c.tcp.calls ≡ frames (replies fs)
  all_sent : All IsSent (replies fs)
