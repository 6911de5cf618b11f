-- ===== src/Tests/Echo.antt =====
-- example/echo_server.cpp and example/config_example.cpp at concrete inputs.
use libuv_server.Prelude.{◌<◌, true, false, ◌≡◌, ◌≤◌, refl, [], ◌∷◌, pos, negsuc, arith, codes}
use libuv_server.Example.{server2, logged_settings}
use libuv_server.Uv.{Uv}
use libuv_server.Udp.{SockAddr, af_inet}
use libuv_server.Tcp.Server.{
  start_server, on_connection, on_new_connection, count_opened, count_closed, on_close,
}
use libuv_server.WebSocket.Connection
use libuv_server.WebSocket.Connection.{
  start_heartbeat, close, stop_heartbeat, write_front, send, try_send, send_frame,
  on_write_complete, finish_graceful,
}
use libuv_server.WebSocket.Server.{on_handshake_complete, on_handle_closed}
use libuv_server.WebSocket.Server.System as WebSocketSystem
use libuv_server.WebSocket.Server.System.{System}
use libuv_server.Echo.Main
use libuv_server.Echo.Main.{Main, set_up}
use libuv_server.Echo.Main.Total.{logged_total}
use libuv_server.Echo.{bulk_from, to_digits}
use libuv_server.Echo.Ending.{
  Ending, at_run, async_send, stop, close_signal, close_async, echo_server, on_signal, after_input,
  on_async, clean_up_both, late_sends, signals, wakes_up, returns, reads_input, begins, continues,
  Reach-late_sends,
}

abbrev uv_works : Uv
uv_works = record { write_result = λ calls bytes. pos 0; ecanceled = negsuc 124 }

abbrev from_localhost : SockAddr
from_localhost = record {
  sa_family = af_inet;
  name = codes "127.0.0.1";
  port_high = 31;
  port_low = 144;
}

-- The texts of the rounds 9 and 10 of a bulk test.
two_rounds : bulk_from 2 9 ≡ codes "Bulk 9\n" ∷ codes "Bulk 10\n" ∷ []
unfolding bulk_from to_digits
two_rounds = refl

-- A WebSocket client came, completed its handshake and went.
abbrev one_gone : Main
one_gone = record {
  tcp = (set_up (pos 0)).tcp;
  ws = record {
    server = record (started.server) { current_connections = 1; conn_id_counter = 1 };
    conns = [];
    total = 1;
    handshakes = 1;
  };
  connection_count = 1;
}
  where
    started : System
    started = (set_up (pos 0)).ws

logged_total_example : one_gone.connection_count ≡ 1
unfolding start_server on_connection on_new_connection count_opened count_closed on_close
    on_handshake_complete on_handle_closed start_heartbeat close stop_heartbeat Connection.serve
    write_front send try_send send_frame on_write_complete finish_graceful
logged_total_example =
    logged_total uv_works (λ bytes. bytes) (pos 0) {m = one_gone}
      (Main.and_then
        (Main.and_then
          (Main.and_then
            (Main.and_then
              (Main.and_then Main.at_start (
                Main.ws_steps (set_up (pos 0))
                  (WebSocketSystem.accepts _ 7 (pos 0) (pos 0) ([], 80) _ _ _ refl)))
              (Main.ws_steps _ (WebSocketSystem.shakes_hands _ [] [] _ 8 refl)))
            (Main.ws_steps _
              (WebSocketSystem.acts _ [] [] _ _ refl (WebSocketSystem.reports _ (pos 0)))))
          (Main.ws_steps _ (WebSocketSystem.acts _ [] [] _ _ refl (WebSocketSystem.ends _))))
        (Main.ws_steps _ (WebSocketSystem.deletes _ [] [] _ 9 refl (omega arith))))

-- What config_example.cpp logs about its second server.
logs_second :
    logged_settings server2
    ≡ (codes "  Read Buffer Size: ", pos 16384)
      ∷ (codes "  Write Buffer Size: ", pos 16384)
      ∷ (codes "  Max Connections: ", pos 5000)
      ∷ (codes "  Connection Read Timeout: ", pos 15000)
      ∷ (codes "  Heartbeat Interval: ", pos 30000)
      ∷ []
logs_second = refl

-- A SIGUSR1 ends the loop, and then the key is pressed.
abbrev pressed_late : Ending
pressed_late = record {
  calls = async_send ∷ close_async ∷ close_signal ∷ stop ∷ async_send ∷ [];
  is_running = false;
  input_read = true;
  usr1_signals = 1;
  inputs = 1;
}

Reach-late_sends_example :
    (0 < 2 → 0 < 2)
    × (0 < 2 → 0 < 2)
    × (false ≡ false → 0 < 2)
    × (1 ≤ 1)
    × (0 < 1 → (echo_server ≡ echo_server) × (0 < 1) × (true ≡ true))
    × (false ≡ false → true ≡ false → late_sends (after_input pressed_late.calls) ≡ 1)
unfolding on_signal after_input on_async clean_up_both
Reach-late_sends_example = Reach-late_sends echo_server 10 {s = pressed_late} (
    continues
      (continues
        (continues (continues begins (signals at_run 10 refl refl)) (wakes_up _ refl (omega arith)))
        (returns _ refl (omega arith)))
      (reads_input _ refl))
