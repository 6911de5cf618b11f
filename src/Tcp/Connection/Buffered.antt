-- ===== src/Tcp/Connection/Buffered.antt =====
-- src/uv_net/tcp_connection.cpp with include/fix_size_protocol.h: how much a receive buffer holds.
use libuv_server.Prelude.{
  ℕ, suc, ◌<◌, ◌≡◌, sym, ap, ◌∙◌, ◌⊎◌, inl, inr, some, List, [], ◌∷◌, arith, length, take, drop,
  Bytes,
}
use libuv_server.Protocol.{
  ServerProtocol, PackageStatus-cases, package_less, package_error, IsFraming,
}
use libuv_server.Protocol.FixSize.{fix_size_protocol, parse_package}
use libuv_server.Protocol.FixSize.Framing.{fix_size-IsFraming}
use libuv_server.Connection.{CallbackMessage}
use libuv_server.Uv.{Uv}
use libuv_server.Tcp.State.{TcpConnection, TcpServer}
use libuv_server.Tcp.Connection.Split.{split_on, split, split_on-full, split_on-idle}
use libuv_server.Tcp.Connection.Split.Reads.{stream, receive_all, receive_all-split}

-- What the parser waits for is less than a whole package.
parse_package_less-lt : (b : Bytes) → (parse_package b).status ≡ package_less → length b < 65535
unfolding parse_package
parse_package_less-lt b h = ground arith

module _ {protocol : ServerProtocol} (framing : IsFraming protocol) where
  split_rest-waits :
      (b : Bytes)
      → let rest = (split protocol b).1 in
        ((protocol.parse_package rest).status ≡ package_less)
        ⊎ ((protocol.parse_package rest).status ≡ package_error)
  split_rest-waits b =
      let rest = (split protocol b).1 in
      elim (PackageStatus-cases (protocol.parse_package rest).status) [
        | inl less ↦ inl less
        | inr (inr error) ↦ inr error
        | inr (inl full) ↦
            let (n, n_eq, n_pos, n_fits, n_int) = framing.full_fits rest full in
            let again =
              sym (split_on-full framing (length rest) rest n full n_eq n_int)
              ∙ split_on-idle framing (suc (length b)) b (omega arith) in
            let none_there : take n rest ∷ (split_on protocol (length rest) (drop n rest)).0 ≡ [] =
              ap (λ s. s.0) again in
            cc
      ]

-- With the protocol of sizes, on a connection with an empty buffer: after any reads, the receive
-- buffer holds fewer than 65535 bytes, unless the parser reports an error at its front.
pub recv_buffer_bound :
    (uv : Uv) (server : TcpServer) (callback : CallbackMessage) (reads : List (ℕ × Bytes))
    (c : TcpConnection)
    → server.on_message ≡ some callback
    → server.server_protocol ≡ some fix_size_protocol
    → c.recv_buffer ≡ []
    → (c' : TcpConnection) × (receive_all uv server reads c ≡ some c')
      × ((length c'.recv_buffer < 65535) ⊎ ((parse_package c'.recv_buffer).status ≡ package_error))
recv_buffer_bound uv server callback reads c calls_back given empty =
    let (c', ran, handed, left) =
      receive_all-split uv server fix_size-IsFraming calls_back reads c given empty in
    (
      c',
      ran,
      elim (split_rest-waits fix_size-IsFraming (stream reads)) [
        | inl less ↦
            inl (
              parse_package_less-lt c'.recv_buffer (ap (λ b. (parse_package b).status) left ∙ less))
        | inr error ↦ inr (ap (λ b. (parse_package b).status) left ∙ error)
      ],
    )
