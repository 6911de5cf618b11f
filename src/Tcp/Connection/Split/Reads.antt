-- ===== src/Tcp/Connection/Split/Reads.antt =====
-- src/uv_net/tcp_connection.cpp: the packages that `OnDataReceived` hands over, against the
-- reference that splits the whole stream at once.
use libuv_server.Prelude.{
  ℕ, zero, suc, ◌<◌, ◌≡◌, refl, sym, ap, ◌∙◌, inl, inr, Option, none, some, List, [], ◌∷◌, ◌++◌,
  append_assoc, append-nil, arith, length, length-drop, is_empty, take, Bytes, Bool-cases,
}
use libuv_server.Protocol.{ServerProtocol, PackageStatus-cases, IsFraming}
use libuv_server.Connection.{CallbackMessage}
use libuv_server.Uv.{Uv, delivered}
use libuv_server.Tcp.State.{TcpConnection, TcpServer}
use libuv_server.Tcp.Connection.{close, deliver_front, drain, on_data_received}
use libuv_server.Tcp.Connection.Delivery.{
  SameInput, close-SameInput, deliver_front-recv_buffer, deliver_front-delivered, drain-full,
  on_data_received-drain,
}
use libuv_server.Tcp.Connection.Split.{
  split_on, split, put_front, before, split_on-full, split_on-less, split_on-error, split_on-nil,
  split_on-append, split_on-idle,
}

-- The bytes of some reads, one after the other.
abbrev pub stream : List (ℕ × Bytes) → Bytes
stream [] = []
stream ((now, bytes) ∷ reads) = bytes ++ stream reads

-- The reads of a connection, each with its time.
unfoldable pub receive_all :
    Uv → TcpServer → List (ℕ × Bytes) → TcpConnection → Option TcpConnection
receive_all uv server [] c = some c
receive_all uv server ((now, bytes) ∷ reads) c = elim (on_data_received uv server now c bytes) [
  | none ↦ none
  | some c' ↦ receive_all uv server reads c'
]

module _ (uv : Uv) (server : TcpServer) {protocol : ServerProtocol} (framing : IsFraming protocol)
    {callback : CallbackMessage} (calls_back : server.on_message ≡ some callback) where
  -- After it, the packages of a split were handed over, and its rest is in the buffer.
  pub record Handed (c c' : TcpConnection) (s : List Bytes × Bytes) : Type 0 where
    pub handed : delivered c'.calls ≡ delivered c.calls ++ s.0
    pub left : c'.recv_buffer ≡ s.1

  Handed-nothing :
      (c c' : TcpConnection) (s : List Bytes × Bytes)
      → SameInput c c'
      → s ≡ ([], c.recv_buffer)
      → Handed c c' s
  Handed-nothing c c' s same e = record {
    handed =
        same.1 ∙ sym (append-nil (delivered c.calls)) ∙ ap (λ s. delivered c.calls ++ s.0) (sym e);
    left = same.0 ∙ ap (λ s. s.1) (sym e);
  }

  Handed-cons :
      (c c' c'' : TcpConnection) (p : Bytes) (s s' : List Bytes × Bytes)
      → delivered c'.calls ≡ delivered c.calls ++ p ∷ []
      → s' ≡ put_front p s
      → Handed c' c'' s
      → Handed c c'' s'
  Handed-cons c c' c'' p s s' e cut v = record {
    handed =
        v.handed
        ∙ ap (λ d. d ++ s.0) e
        ∙ append_assoc (delivered c.calls) (p ∷ []) s.0
        ∙ ap (λ s. delivered c.calls ++ s.0) (sym cut);
    left = v.left ∙ ap (λ s. s.1) (sym cut);
  }

  Handed-trans :
      (c c' c'' : TcpConnection) (s u q : List Bytes × Bytes)
      → Handed c c' s
      → Handed c' c'' u
      → q ≡ before s.0 u
      → Handed c c'' q
  Handed-trans c c' c'' s u q v w e = record {
    handed =
        w.handed
        ∙ ap (λ d. d ++ u.0) v.handed
        ∙ append_assoc (delivered c.calls) s.0 u.0
        ∙ ap (λ q. delivered c.calls ++ q.0) (sym e);
    left = w.left ∙ ap (λ q. q.1) (sym e);
  }

  -- The loop hands over the packages of the reference.
  drain-split :
      (now fuel : ℕ) (c : TcpConnection)
      → length c.recv_buffer < fuel
      → (c' : TcpConnection) × (drain uv server now protocol fuel c ≡ some c')
        × Handed c c' (split_on protocol fuel c.recv_buffer)
  unfolding drain
  drain-split now zero c h = absurd (omega arith)
  drain-split now (suc fuel) c h = elim (Bool-cases (is_empty c.recv_buffer)) [
    | inl e ↦ (
      c,
      rw (e, drain),
      Handed-nothing c c _ (refl, refl) (split_on-nil framing fuel c.recv_buffer e),
    )
    | inr e ↦ elim (PackageStatus-cases (protocol.parse_package c.recv_buffer).status) [
      | inl less ↦ (
        c,
        rw (e, drain) (rw (less, drain)),
        Handed-nothing c c _ (refl, refl) (split_on-less framing fuel c.recv_buffer less),
      )
      | inr (inr error) ↦ (
        close c,
        rw (e, drain) (rw (error, drain)),
        Handed-nothing c (close c) _ (close-SameInput c)
            (split_on-error framing fuel c.recv_buffer error),
      )
      | inr (inl full) ↦
          let (n, n_eq, n_pos, n_fits, n_int) = framing.full_fits c.recv_buffer full in
          let after = deliver_front uv server now c n in
          let left = deliver_front-recv_buffer uv server now c n in
          let (c', ran, v) =
            drain-split now fuel after
              (omega (arith, ap length left, length-drop n c.recv_buffer)) in
          (
            c',
            drain-full uv server now protocol fuel c n e full n_eq n_int ∙ ran,
            Handed-cons c after c' (take n c.recv_buffer) (split_on protocol fuel after.recv_buffer)
                _ (deliver_front-delivered uv server now c n calls_back)
                (split_on-full framing fuel c.recv_buffer n full n_eq n_int
                  ∙ ap (λ b. put_front (take n c.recv_buffer) (split_on protocol fuel b))
                      (sym left))
                v,
          )
    ]
  ]

  on_data_received-split :
      (now : ℕ) (c : TcpConnection) (bytes : Bytes)
      → server.server_protocol ≡ some protocol
      → (c' : TcpConnection) × (on_data_received uv server now c bytes ≡ some c')
        × Handed c c' (split protocol (c.recv_buffer ++ bytes))
  on_data_received-split now c bytes given =
      let (c', ran, v) =
        drain-split now (suc (length received.recv_buffer)) received (omega arith) in
      (
        c',
        on_data_received-drain uv server now c bytes given ∙ ran,
        record { handed = v.handed; left = v.left },
      )
    where
      received : TcpConnection
      received = record c { last_active_time = now; recv_buffer = c.recv_buffer ++ bytes }

  -- From a connection whose buffer holds no package.
  receive_all-split_from :
      (reads : List (ℕ × Bytes)) (c : TcpConnection)
      → server.server_protocol ≡ some protocol
      → split protocol c.recv_buffer ≡ ([], c.recv_buffer)
      → (c' : TcpConnection) × (receive_all uv server reads c ≡ some c')
        × Handed c c' (split protocol (c.recv_buffer ++ stream reads))
  unfolding receive_all
  receive_all-split_from [] c given idle = (
    c,
    refl,
    Handed-nothing c c _ (refl, refl) (ap (split protocol) (append-nil c.recv_buffer) ∙ idle),
  )
  receive_all-split_from ((now, bytes) ∷ reads) c given idle =
      let (c', ran, v) = on_data_received-split now c bytes given in
      let there =
        split_on-idle framing (suc (length (c.recv_buffer ++ bytes))) (c.recv_buffer ++ bytes)
          (omega arith) in
      let (c'', later, w) =
        receive_all-split_from reads c' given
          (ap (split protocol) v.left ∙ there ∙ ap (λ b. ([], b)) (sym v.left)) in
      (
        c'',
        rw (ran, receive_all) later,
        Handed-trans c c' c'' _ _ _ v w (
            ap (split protocol) (sym (append_assoc c.recv_buffer bytes (stream reads)))
            ∙ split_on-append framing (suc (length (c.recv_buffer ++ bytes)))
                (c.recv_buffer ++ bytes) (stream reads) (omega arith)
            ∙ ap
                (λ b.
                  before (split protocol (c.recv_buffer ++ bytes)).0
                    (split protocol (b ++ stream reads)))
                (sym v.left)),
      )

  -- A server with a parser and a message callback, on a connection with an empty buffer: however a
  -- stream of any bytes is cut into reads, the callback is given the packages that the reference
  -- splits off the whole stream at once, in order, and the rest of it is in the buffer.
  pub receive_all-split :
      (reads : List (ℕ × Bytes)) (c : TcpConnection)
      → server.server_protocol ≡ some protocol
      → c.recv_buffer ≡ []
      → (c' : TcpConnection) × (receive_all uv server reads c ≡ some c')
        × (delivered c'.calls ≡ delivered c.calls ++ (split protocol (stream reads)).0)
        × (c'.recv_buffer ≡ (split protocol (stream reads)).1)
  receive_all-split reads c given empty =
      let none_there : split protocol c.recv_buffer ≡ ([], c.recv_buffer) =
        split_on-nil framing (length c.recv_buffer) c.recv_buffer (rw empty) in
      let (c', ran, v) = receive_all-split_from reads c given none_there in
      let same = ap (λ b. split protocol (b ++ stream reads)) empty in
      (c', ran, v.handed ∙ ap (λ s. delivered c.calls ++ s.0) same, v.left ∙ ap (λ s. s.1) same)
