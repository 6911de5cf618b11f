-- ===== src/Example/Report.antt =====
-- example/config_example.cpp: what `main` logs up to `uv_run`, in order, behind `LogInit`.
use libuv_server.Prelude.{
  ◌≡◌, Bool, true, false, List, [], ◌∷◌, ◌++◌, map, if◌then◌else◌, ℤ, arith, Bytes, codes,
}
use libuv_server.Tcp.State.{TcpServer}
use libuv_server.Tcp.Server.{start_server}
use libuv_server.Example.{server1, server2, server3, logged_settings, config_example}

-- A line without and with a number, of PLOG_INFO, and a line of PLOG_ERROR.
pub data LogLine : Type 0 where
  info error : Bytes → LogLine
  setting : Bytes × ℤ → LogLine

unfoldable pub log_start : Bytes → Bytes → Bool → LogLine
log_start name address started =
    if started
    then info (name ++ codes " started on " ++ address)
    else error (name ++ codes " failed to start")

unfoldable pub log_starts : ℤ → ℤ → ℤ → List LogLine
log_starts bound1 bound2 bound3 =
    log_start (codes "Server 1") (codes "0.0.0.0:8080") (start_server bound1 server1).1
    ∷ log_start (codes "Server 2") (codes "0.0.0.0:8081") (start_server bound2 server2).1
    ∷ log_start (codes "Server 3") (codes "0.0.0.0:8082") (start_server bound3 server3).1
    ∷ []

unfoldable pub config_example_log : ℤ → ℤ → ℤ → List LogLine
config_example_log bound1 bound2 bound3 =
    info (codes "=== Example 1: Default Config ===")
      ∷ info (codes "=== Example 2: Custom Config ===")
      ∷ info (codes "=== Example 3: Runtime Config Modification ===")
      ∷ info (codes "Server 1 Config:")
      ∷ map setting (logged_settings server1)
    ++ info (codes "\nServer 2 Config:") ∷ map setting (logged_settings server2)
    ++ info (codes "\nServer 3 Config:") ∷ map setting (logged_settings server3)
    ++ log_starts bound1 bound2 bound3
    ++ info (codes "Config example running. Press Ctrl+C to exit.") ∷ []

-- A line of the start is an error or not.
abbrev pub is_error : LogLine → Bool
is_error (error text) = true
is_error (info text) = false
is_error (setting s) = false

-- Each report of an error is about a server that does not listen, and each other one about a server
-- that does.
abbrev pub IsTrue : List TcpServer → List LogLine → Type 0
IsTrue [] [] = Unit
IsTrue [] (l ∷ ls) = ⊥
IsTrue (s ∷ ss) [] = ⊥
IsTrue (s ∷ ss) (l ∷ ls) = (s.listeners ≡ (if is_error l then 0 else 1)) × IsTrue ss ls

-- Whatever the calls of `uv_tcp_bind` return, what is logged about the three starts is true.
log_starts-config_example :
    (bound1 bound2 bound3 : ℤ)
    → IsTrue (config_example bound1 bound2 bound3) (log_starts bound1 bound2 bound3)
unfolding config_example log_starts start_server log_start
log_starts-config_example bound1 bound2 bound3 = (ground arith, (ground arith, (ground arith, tt)))
