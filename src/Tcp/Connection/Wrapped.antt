-- ===== src/Tcp/Connection/Wrapped.antt =====
-- src/uv_net/tcp_connection.cpp with include/fix_size_protocol.h: messages behind their sizes reach
-- the user's callback.
use libuv_server.Prelude.{
  ℕ, ◌+◌, ◌≤◌, ◌≡◌, ap, sym, ◌∙◌, List, [], ◌∷◌, ◌++◌, append-nil, some, arith, length, concat, All,
  pos, Bytes,
}
use libuv_server.Protocol.{package_full}
use libuv_server.Protocol.FixSize.{fix_size_protocol, parse_package}
use libuv_server.Protocol.FixSize.Framing.{wrap, fix_size-IsFraming, parse_package-wrap}
use libuv_server.Connection.{CallbackMessage}
use libuv_server.Uv.{Uv, delivered}
use libuv_server.Tcp.State.{TcpConnection, TcpServer}
use libuv_server.Tcp.Connection.Fragments.{IsPackage, packages_arrive_whole}
use libuv_server.Tcp.Connection.Split.Reads.{stream, receive_all}

abbrev pub wrap_all : List Bytes → List Bytes
wrap_all [] = []
wrap_all (msg ∷ msgs) = wrap msg ∷ wrap_all msgs

length-wrap : (msg : Bytes) → length (wrap msg) ≡ length msg + 4
unfolding wrap
length-wrap msg = omega arith

wrap-IsPackage : (msg : Bytes) → length msg + 4 ≤ 65535 → IsPackage fix_size_protocol (wrap msg)
wrap-IsPackage msg h = record {
  is_full = ap (λ r. r.status) whole;
  is_whole = ap (λ r. r.package_len) whole ∙ ap pos (omega (arith, length-wrap msg));
}
  where
    whole : parse_package (wrap msg) ≡ record {
      status = package_full;
      package_len = pos (length msg + 4);
      msg_len = pos (length msg);
    }
    whole = ap parse_package (sym (append-nil (wrap msg))) ∙ parse_package-wrap msg [] h

pub wrap_all-IsPackage :
    (msgs : List Bytes)
    → All (λ msg. length msg + 4 ≤ 65535) msgs
    → All (IsPackage fix_size_protocol) (wrap_all msgs)
wrap_all-IsPackage [] h = tt
wrap_all-IsPackage (msg ∷ msgs) h = (wrap-IsPackage msg h.0, wrap_all-IsPackage msgs h.1)

-- A server with the protocol of sizes and a message callback: where a peer sends messages of at
-- most 65531 bytes, each behind its size, in a stream cut into reads in any way, the connection
-- handles every read, the callback is given each package once, in order, and no byte is left over.
pub wrapped_messages_arrive :
    (uv : Uv) (server : TcpServer) (callback : CallbackMessage) (reads : List (ℕ × Bytes))
    (c : TcpConnection) (msgs : List Bytes)
    → server.on_message ≡ some callback
    → server.server_protocol ≡ some fix_size_protocol
    → All (λ msg. length msg + 4 ≤ 65535) msgs
    → c.recv_buffer ≡ []
    → stream reads ≡ concat (wrap_all msgs)
    → (c' : TcpConnection) × (receive_all uv server reads c ≡ some c')
      × (delivered c'.calls ≡ delivered c.calls ++ wrap_all msgs)
      × (c'.recv_buffer ≡ [])
wrapped_messages_arrive uv server callback reads c msgs calls_back given short empty e =
    packages_arrive_whole fix_size-IsFraming uv server callback reads c (wrap_all msgs) calls_back
      given (wrap_all-IsPackage msgs short) empty e
