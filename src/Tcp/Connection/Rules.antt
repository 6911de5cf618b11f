-- ===== src/Tcp/Connection/Rules.antt =====
-- src/uv_net/tcp_connection.cpp: a rule for what `OnDataReceived` keeps.
use libuv_server.Prelude.{
  ℕ, zero, suc, ◌≡◌, some, ◌++◌, to_size, arith, take, [], Bytes, Option-cases, inl, inr,
}
use mathlib.Core.Path.{subst}
use mathlib.Core.Option.{some-injective}
use libuv_server.Protocol.{ServerProtocol}
use libuv_server.Uv.{Uv}
use libuv_server.Tcp.State.{TcpConnection, TcpServer}
use libuv_server.Tcp.Connection.{close, on_message, deliver_front, drain, on_data_received}

-- Whatever a callback, a change of the receive buffer or of the time of the last activity, and
-- `Close` keep, `OnDataReceived` keeps.
module _ {κ} (uv : Uv) (server : TcpServer) (now : ℕ) (P : TcpConnection → Type κ)
    (keep_message : (c : TcpConnection) (bytes : Bytes)
      → P c
      → P (on_message uv server now c bytes))
    (keep_buffer : (c : TcpConnection) (bytes : Bytes) → P c → P (record c { recv_buffer = bytes }))
    (keep_close : (c : TcpConnection) → P c → P (close c)) where
  pub drain_rule :
      (protocol : ServerProtocol) (fuel : ℕ) (c : TcpConnection) {c' : TcpConnection}
      → P c
      → drain uv server now protocol fuel c ≡ some c'
      → P c'
  unfolding drain deliver_front
  drain_rule protocol zero c v e = cc
  drain_rule protocol (suc fuel) c {c'} v e = ground (
    arith,
    keep_close c v,
    drain_rule protocol fuel (deliver_front uv server now c (package_len c)) {c' = c'}
        (keep_buffer _ _ (keep_message c (take (package_len c) c.recv_buffer) v)),
  )
    where
      package_len : TcpConnection → ℕ
      package_len c = to_size (protocol.parse_package c.recv_buffer).package_len

  pub on_data_received_rule :
      (c : TcpConnection) (bytes : Bytes) {c' : TcpConnection}
      → P (record c { last_active_time = now; recv_buffer = c.recv_buffer ++ bytes })
      → on_data_received uv server now c bytes ≡ some c'
      → P c'
  unfolding on_data_received
  on_data_received_rule c bytes {c'} v e = elim (Option-cases server.server_protocol) [
    | inl h ↦
        subst P (some-injective _ _ (rw (h, on_data_received) at e))
          (keep_buffer _ [] (keep_message _ _ v))
    | inr (protocol, h) ↦ drain_rule protocol _ _ v (rw (h, on_data_received) at e)
  ]
