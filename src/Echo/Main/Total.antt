-- ===== src/Echo/Main/Total.antt =====
-- example/echo_server.cpp: what the total that the servers log counts.
use libuv_server.Prelude.{
  ℕ, suc, ◌+◌, ◌%◌, ◌^◌, ◌≡◌, refl, ap, ◌∙◌, ◌-◌, [], ◌∷◌, ℤ, arith, length, length-append,
  length-middle, Bytes,
}
use libuv_server.Uv.{Uv, opens, goodbyes}
use libuv_server.Tcp.State.{TcpConnection}
use libuv_server.Tcp.Server.{start_server, tcp_class, on_close, on_alloc}
use libuv_server.Tcp.Server.System
use libuv_server.WebSocket.Server.{web_socket_class, on_handshake_complete, on_handle_closed}
use libuv_server.WebSocket.Server.System as WebSocketSystem
use libuv_server.Echo.Main.{
  Main, count_up, count_down, count_calls, after_tcp, after_ws, Step, tcp_steps, ws_steps, Reach,
  at_start, and_then, set_up,
}
use libuv_server.Echo.Main.Heard.{Heard, on_connection-Heard, on_read-Heard, on_close-Heard}
use libuv_server.Echo.Main.Heard.Tcp
use libuv_server.Echo.Main.Heard.Tcp.{tcp_class-IsQuiet}
use libuv_server.Echo.Main.Heard.Web
use libuv_server.Echo.Main.Heard.Web.{
  web_socket_class-IsQuiet, on_handshake_complete-Heard, on_handle_closed-Heard,
}
use libuv_server.Echo.Main.Callbacks.{
  HasCallbacks, tcp-HasCallbacks, ws-HasCallbacks, started-HasCallbacks,
}

-- From a count that agrees with `old`, beside the `rest` that the other server has, to one that
-- agrees with `new`.
abbrev Follows : ℕ → ℕ → (ℕ → ℕ) → Type 0
Follows old new after = (n rest : ℕ) → n ≡ (old + rest) % 2 ^ 32 → after n ≡ (new + rest) % 2 ^ 32

Follows-id : (old new : ℕ) → old ≡ new → Follows old new (λ n. n)
Follows-id old new e n rest h = omega (arith, e, h)

Follows-up : (old new : ℕ) → new ≡ suc old → Follows old new count_up
Follows-up old new e n rest h = omega (arith, e, h)

Follows-down : (old new : ℕ) → old ≡ suc new → Follows old new count_down
Follows-down old new e n rest h = omega (arith, e, h)

-- Two histories of one connection: what was called in between.
module _ (old new : ℕ) (t t' : TcpConnection) where
  quiet-Follows :
      Heard (opens t.calls) (goodbyes t.calls) t'
      → old ≡ new
      → Follows old new (count_calls t.calls t'.calls)
  quiet-Follows v e n rest h =
      let none_opened : opens t'.calls - opens t.calls ≡ 0 = omega (arith, v.0) in
      let none_closed : goodbyes t'.calls - goodbyes t.calls ≡ 0 = omega (arith, v.1) in
      rw (none_opened, none_closed) (Follows-id old new e n rest h)

  opened-Follows :
      Heard (suc (opens t.calls)) (goodbyes t.calls) t'
      → new ≡ suc old
      → Follows old new (count_calls t.calls t'.calls)
  opened-Follows v e n rest h =
      let one_opened : opens t'.calls - opens t.calls ≡ 1 = omega (arith, v.0) in
      let none_closed : goodbyes t'.calls - goodbyes t.calls ≡ 0 = omega (arith, v.1) in
      rw (one_opened, none_closed) (Follows-up old new e n rest h)

  closed-Follows :
      Heard (opens t.calls) (suc (goodbyes t.calls)) t'
      → old ≡ suc new
      → Follows old new (count_calls t.calls t'.calls)
  closed-Follows v e n rest h =
      let none_opened : opens t'.calls - opens t.calls ≡ 0 = omega (arith, v.0) in
      let one_closed : goodbyes t'.calls - goodbyes t.calls ≡ 1 = omega (arith, v.1) in
      rw (none_opened, one_closed) (Follows-down old new e n rest h)

-- A connection that was just taken.
taken-Follows :
    (old new : ℕ) (t : TcpConnection)
    → Heard 1 0 t
    → new ≡ suc old
    → Follows old new (count_calls [] t.calls)
taken-Follows old new t v e n rest h = rw (v.0, v.1) (Follows-up old new e n rest h)

module _ (uv : Uv) where
  tcp-Follows :
      {s t : System.System} (st : System.Step uv s t)
      → HasCallbacks s.server
      → Follows (length s.conns) (length t.conns) (after_tcp st)
  unfolding on_alloc
  tcp-Follows (System.refuses s now status result from server e) v = Follows-id _ _ refl
  tcp-Follows (System.accepts s now status result from server c options e) v =
      taken-Follows _ _ c
        (on_connection-Heard (tcp_class uv) (tcp_class-IsQuiet uv) now status result from s.server
          server c options v.opens e)
        refl
  tcp-Follows (System.reads s before after c c' now nread bytes server e ran) v =
      quiet-Follows _ _ c c'
        (on_read-Heard (tcp_class uv) (tcp_class-IsQuiet uv) (opens c.calls) (goodbyes c.calls) now
          nread bytes _ _ server c c' ran (refl, refl))
        (ap length e ∙ length-middle before after c' c)
  tcp-Follows (System.acts s before after c c' e a) v =
      quiet-Follows _ _ c c' (Tcp.Action-Heard a (refl, refl))
        (ap length e ∙ length-middle before after c' c)
  tcp-Follows (System.deletes s before after c now e h) v =
      closed-Follows _ _ c (on_close (tcp_class uv) now s.server c).1
        (on_close-Heard (tcp_class uv) (tcp_class-IsQuiet uv) (opens c.calls) (goodbyes c.calls) now
          s.server c v.closes (refl, refl))
        (omega (arith, ap length e, length-append before (c ∷ after), length-append before after))

module _ (uv : Uv) (sha1 : Bytes → Bytes) where
  ws-Follows :
      {s t : WebSocketSystem.System} (st : WebSocketSystem.Step uv sha1 s t)
      → HasCallbacks s.server
      → Follows (length s.conns + s.handshakes) (length t.conns + t.handshakes) (after_ws st)
  unfolding on_alloc
  ws-Follows (WebSocketSystem.refuses s now status result from server e) v = Follows-id _ _ refl
  ws-Follows (WebSocketSystem.accepts s now status result from server c options e) v =
      taken-Follows _ _ c.tcp
        (on_connection-Heard (web_socket_class uv sha1) (web_socket_class-IsQuiet uv sha1) now
          status result from s.server server c options v.opens e)
        (omega arith)
  ws-Follows (WebSocketSystem.reads s before after c c' now nread bytes server e ran) v =
      quiet-Follows _ _ c.tcp c'.tcp
        (on_read-Heard (web_socket_class uv sha1) (web_socket_class-IsQuiet uv sha1)
          (opens c.tcp.calls) (goodbyes c.tcp.calls) now nread bytes _ _ server c c' ran
          (refl, refl))
        (omega (arith, ap length e, length-middle before after c' c))
  ws-Follows (WebSocketSystem.acts s before after c c' e a) v =
      quiet-Follows _ _ c.tcp c'.tcp (Web.Action-Heard a (refl, refl))
        (omega (arith, ap length e, length-middle before after c' c))
  ws-Follows (WebSocketSystem.shakes_hands s before after c now e) v =
      opened-Follows _ _ c.tcp (on_handshake_complete uv sha1 now s.server c).1.tcp
        (on_handshake_complete-Heard uv sha1 (opens c.tcp.calls) (goodbyes c.tcp.calls) now s.server
          c v.opens (refl, refl))
        (omega (
          arith,
          ap length e,
          length-middle before after (on_handshake_complete uv sha1 now s.server c).1 c,
        ))
  ws-Follows (WebSocketSystem.deletes s before after c now e h) v =
      closed-Follows _ _ c.tcp (on_handle_closed uv sha1 now s.server c).1.tcp
        (on_handle_closed-Heard uv sha1 (opens c.tcp.calls) (goodbyes c.tcp.calls) now s.server c
          v.closes (refl, refl))
        (omega (arith, ap length e, length-append before (c ∷ after), length-append before after))

-- What holds of the servers and the count.
record IsTotal (m : Main) : Type 0 where
  tcp_set : HasCallbacks m.tcp.server
  ws_set : HasCallbacks m.ws.server
  total : m.connection_count ≡ (length m.tcp.conns + (length m.ws.conns + m.ws.handshakes)) % 2 ^ 32

module _ (uv : Uv) (sha1 : Bytes → Bytes) where
  Step-IsTotal : {m l : Main} → Step uv sha1 m l → IsTotal m → IsTotal l
  Step-IsTotal (tcp_steps m st) v = record {
    tcp_set = tcp-HasCallbacks uv st v.tcp_set;
    ws_set = v.ws_set;
    total = tcp-Follows uv st v.tcp_set _ _ v.total;
  }
  Step-IsTotal (ws_steps m {t} st) v = record {
    tcp_set = v.tcp_set;
    ws_set = ws-HasCallbacks uv sha1 st v.ws_set;
    total =
        ws-Follows uv sha1 st v.ws_set m.connection_count (length m.tcp.conns)
          (omega (arith, v.total))
        ∙ omega arith;
  }

  Reach-IsTotal : (bound : ℤ) {m : Main} → Reach uv sha1 (set_up bound) m → IsTotal m
  unfolding start_server
  Reach-IsTotal bound at_start = record {
    tcp_set = record { opens = (_, refl); closes = (_, refl) };
    ws_set = started-HasCallbacks bound;
    total = refl;
  }
  Reach-IsTotal bound (and_then r st) = Step-IsTotal st (Reach-IsTotal bound r)

  -- Whatever the two servers go through, in any order: the total that the program logs is the
  -- number of TCP and of WebSocket connections that are not deleted, with one more for each
  -- handshake that was ever completed, modulo 2 ^ 32.
  pub logged_total :
      (bound : ℤ) {m : Main}
      → Reach uv sha1 (set_up bound) m
      → m.connection_count ≡ (length m.tcp.conns + (length m.ws.conns + m.ws.handshakes)) % 2 ^ 32
  logged_total bound r = (Reach-IsTotal bound r).total
