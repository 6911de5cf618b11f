-- ===== src/Tcp/Server/Listener.antt =====
-- src/uv_net/tcp_server.cpp: the calls that `Start` makes for its listening socket, and
-- `SetReusePort`, of which src/uv_net/utils.cpp has a copy. A platform without SO_REUSEPORT makes no
-- `setsockopt`.
use libuv_server.Prelude.{
  ℕ, ◌≡◌, true, not, Option, none, some, List, [], ◌∷◌, ◌++◌, if◌then◌else◌, ℤ, pos, arith, Bytes,
  ◌==ℤ◌, ◌+◌, ◌↔◌,
}
use libuv_server.Tcp.State.{TcpServer}
use libuv_server.Tcp.Server.{start_server}

-- `uv_tcp_init`, `setsockopt` of SO_REUSEPORT on a descriptor, `uv_ip4_addr`, `uv_tcp_bind`, the
-- deletion of the handle, and `uv_listen` with its backlog.
pub data SocketCall : Type 0 where
  tcp_init : SocketCall
  reuse_port : ℕ → SocketCall
  ip4_addr : Bytes → ℤ → SocketCall
  bind delete_listener : SocketCall
  listen : ℕ → SocketCall

-- `descriptor` is what `uv_fileno` gives, if it succeeds.
unfoldable pub set_reuse_port : Option ℕ → List SocketCall
set_reuse_port none = []
set_reuse_port (some fd) = reuse_port fd ∷ []

-- In the order of the calls; `bound` is what `uv_tcp_bind` returns.
unfoldable pub start_calls : Option ℕ → Bytes → ℤ → ℤ → List SocketCall
start_calls descriptor ip port bound =
    tcp_init ∷ set_reuse_port descriptor
    ++ ip4_addr ip port
      ∷ bind
      ∷ (if not (bound ==ℤ pos 0) then delete_listener ∷ [] else listen 128 ∷ [])

-- How often a socket was made to listen, and how often one was deleted again.
abbrev pub listens : List SocketCall → ℕ
listens [] = 0
listens (listen backlog ∷ cs) = 1 + listens cs
listens (_ ∷ cs) = listens cs

abbrev pub deletions : List SocketCall → ℕ
deletions [] = 0
deletions (delete_listener ∷ cs) = 1 + deletions cs
deletions (_ ∷ cs) = deletions cs

-- Whatever `uv_fileno` and `uv_tcp_bind` return: a handle is deleted or listens, once; it listens
-- exactly if `Start` returns true, and then it is the one more among the listeners.
start_calls-start_server :
    (descriptor : Option ℕ) (ip : Bytes) (port bound : ℤ) (s : TcpServer)
    → let calls = start_calls descriptor ip port bound in
      (listens calls + deletions calls ≡ 1)
      × ((start_server bound s).1 ≡ true ↔ listens calls ≡ 1)
      × ((start_server bound s).0.listeners ≡ s.listeners + listens calls)
unfolding start_calls start_server set_reuse_port
start_calls-start_server none ip port bound s = ground arith
start_calls-start_server (some fd) ip port bound s = ground arith
