-- ===== src/Tcp/Connection/Delivery.antt =====
-- src/uv_net/tcp_connection.cpp: what reaches the message callback, however the stream is cut.
use libuv_server.Prelude.{
  ℕ, ◌^◌, ◌%◌, zero, suc, ◌<◌, ◌≡◌, refl, ap, ◌∙◌, inl, inr, false, some, List, [], ◌∷◌, ◌++◌, pos,
  arith, length, length-drop, is_empty, take, drop, Bytes, Option-cases, Bool-cases,
}
use libuv_server.Protocol.{ServerProtocol, PackageStatus-cases, package_full, IsFraming}
use libuv_server.Connection.{Request, send_bytes, close_it, CallbackMessage}
use libuv_server.Uv.{Uv, queued, message, delivered}
use libuv_server.Tcp.State.{TcpConnection, TcpServer}
use libuv_server.Tcp.Connection.{
  close, write_front, try_send, send, serve, on_message, deliver_front, drain, on_data_received,
}

-- The receive buffer and the messages handed over so far are not touched.
abbrev pub SameInput : TcpConnection → TcpConnection → Type 0
SameInput c c' = (c'.recv_buffer ≡ c.recv_buffer) × (delivered c'.calls ≡ delivered c.calls)

pub close-SameInput : (c : TcpConnection) → SameInput c (close c)
unfolding close
close-SameInput c = ground arith

write_front-SameInput :
    (uv : Uv) (queue : List Bytes) (c : TcpConnection) → SameInput c (write_front uv queue c)
unfolding write_front
write_front-SameInput uv [] c = (refl, refl)
write_front-SameInput uv (front ∷ rest) c = ground arith

send-SameInput :
    (uv : Uv) (server : TcpServer) (now : ℕ) (c : TcpConnection) (bytes : Bytes)
    → SameInput c (send uv server now c bytes)
unfolding send try_send
send-SameInput uv server now c bytes = ground (
  arith,
  write_front-SameInput uv (c.send_queue ++ bytes ∷ []) (record c {
    send_queue = c.send_queue ++ bytes ∷ [];
    calls = queued bytes ∷ c.calls;
    last_active_time = now;
  }),
)

pub serve-SameInput :
    (uv : Uv) (server : TcpServer) (now : ℕ) (requests : List Request) (c : TcpConnection)
    → SameInput c (serve uv server now requests c)
unfolding serve
serve-SameInput uv server now [] c = (refl, refl)
serve-SameInput uv server now (send_bytes bytes ∷ rest) c = ground (
  arith,
  send-SameInput uv server now c bytes,
  serve-SameInput uv server now rest (send uv server now c bytes),
)
serve-SameInput uv server now (close_it ∷ rest) c =
    ground (arith, close-SameInput c, serve-SameInput uv server now rest (close c))

module _ (uv : Uv) (server : TcpServer) (now : ℕ) where
  on_message-keeps_buffer :
      (c : TcpConnection) (bytes : Bytes)
      → (on_message uv server now c bytes).recv_buffer ≡ c.recv_buffer
  unfolding on_message
  on_message-keeps_buffer c bytes = elim (Option-cases server.on_message) [
    | inl e ↦ rw (e, on_message)
    | inr (callback, e) ↦ rw (e, on_message) (serve-SameInput uv server now _ _).0
  ]

  -- With a message callback set, the callback is called once, with these bytes.
  on_message-delivered :
      {callback : CallbackMessage} (c : TcpConnection) (bytes : Bytes)
      → server.on_message ≡ some callback
      → delivered (on_message uv server now c bytes).calls ≡ delivered c.calls ++ bytes ∷ []
  unfolding on_message
  on_message-delivered c bytes e =
      rw (e, on_message)
        (serve-SameInput uv server now _ (record c { calls = message bytes ∷ c.calls })).1

  pub deliver_front-recv_buffer :
      (c : TcpConnection) (n : ℕ)
      → (deliver_front uv server now c n).recv_buffer ≡ drop n c.recv_buffer
  unfolding deliver_front
  deliver_front-recv_buffer c n = ap (drop n) (on_message-keeps_buffer c (take n c.recv_buffer))

  pub deliver_front-delivered :
      {callback : CallbackMessage} (c : TcpConnection) (n : ℕ)
      → server.on_message ≡ some callback
      → delivered (deliver_front uv server now c n).calls
        ≡ delivered c.calls ++ take n c.recv_buffer ∷ []
  unfolding deliver_front
  deliver_front-delivered c n e = on_message-delivered c (take n c.recv_buffer) e

  -- One round of the loop at a full package of `n` bytes.
  pub drain-full :
      (protocol : ServerProtocol) (fuel : ℕ) (c : TcpConnection) (n : ℕ)
      → is_empty c.recv_buffer ≡ false
      → (protocol.parse_package c.recv_buffer).status ≡ package_full
      → (protocol.parse_package c.recv_buffer).package_len ≡ pos n
      → n < 2 ^ 31
      → drain uv server now protocol (suc fuel) c
        ≡ drain uv server now protocol fuel (deliver_front uv server now c n)
  unfolding drain
  drain-full protocol fuel c n e full len int =
      let small : n % 2 ^ 64 ≡ n = omega arith in
      rw (e, drain) (rw (full, drain) (rw len (rw small)))

  pub on_data_received-drain :
      {protocol : ServerProtocol} (c : TcpConnection) (bytes : Bytes)
      → server.server_protocol ≡ some protocol
      → on_data_received uv server now c bytes
        ≡ drain uv server now protocol
            (suc (length (c.recv_buffer ++ bytes)))
            (record c { last_active_time = now; recv_buffer = c.recv_buffer ++ bytes })
  unfolding on_data_received
  on_data_received-drain c bytes e = ground arith

  -- The loop ends within its fuel, whatever the bytes, for any lawful parser.
  drain_total :
      {protocol : ServerProtocol} (framing : IsFraming protocol) (fuel : ℕ) (c : TcpConnection)
      → length c.recv_buffer < fuel
      → (c' : TcpConnection) × (drain uv server now protocol fuel c ≡ some c')
  unfolding drain
  drain_total framing zero c h = absurd (omega arith)
  drain_total {protocol} framing (suc fuel) c h = elim (Bool-cases (is_empty c.recv_buffer)) [
    | inl e ↦ (c, rw (e, drain))
    | inr e ↦ elim (PackageStatus-cases (protocol.parse_package c.recv_buffer).status) [
      | inl less ↦ (c, rw (e, drain) (rw (less, drain)))
      | inr (inr error) ↦ (close c, rw (e, drain) (rw (error, drain)))
      | inr (inl full) ↦
          let (n, n_eq, n_pos, n_fits, n_int) = framing.full_fits c.recv_buffer full in
          let left = drain_total framing fuel (deliver_front uv server now c n) (
            omega
              (arith, ap length (deliver_front-recv_buffer c n), length-drop n c.recv_buffer)) in
          (left.0, drain-full protocol fuel c n e full n_eq n_int ∙ left.1)
    ]
  ]

  -- `OnDataReceived` returns, whatever the bytes: with no parser, or with any lawful one.
  pub on_data_received_total :
      (c : TcpConnection) (bytes : Bytes)
      → ((protocol : ServerProtocol) → server.server_protocol ≡ some protocol → IsFraming protocol)
      → (c' : TcpConnection) × (on_data_received uv server now c bytes ≡ some c')
  unfolding on_data_received
  on_data_received_total c bytes lawful = elim (Option-cases server.server_protocol) [
    | inl e ↦ (
      record (on_message uv server now received received.recv_buffer) { recv_buffer = [] },
      ground (arith, e),
    )
    | inr (protocol, e) ↦
        let done =
          drain_total (lawful protocol e) (suc (length received.recv_buffer)) received
            (omega arith) in
        (done.0, ground (arith, e, done.1))
  ]
    where
      received : TcpConnection
      received = record c { last_active_time = now; recv_buffer = c.recv_buffer ++ bytes }
