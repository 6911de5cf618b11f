-- ===== src/Echo/Main/Heard.antt =====
-- src/uv_net/tcp_server.cpp: how often the callbacks of a server, for any class of connection, call
-- the user's `on_open_` and `on_close_`.
pub mod Tcp
pub mod Web
use mathlib.Core.Path.{subst}
use libuv_server.Prelude.{
  ℕ, suc, ◌+◌, ◌%◌, ◌^◌, ◌≡◌, ap, ◌∙◌, some, none, ◌⊎◌, inl, inr, List, ◌∷◌, ℤ, arith, Bytes,
  Bool-cases, Option-cases, gtb_ℤ,
}
use libuv_server.Connection.{Request, CallbackOpen, CallbackClose}
use libuv_server.Uv.{opens, goodbyes, opened, closed, close_bare}
use libuv_server.Tcp.State.{TcpConnection, TcpServer, peer}
use libuv_server.Tcp.Server.{
  ConnectionClass, SocketOptions, note, count_opened, count_closed, on_new_connection,
  on_connection, on_close, on_read,
}

-- `on_open_` was called `a` times for a connection, and `on_close_` `b` times.
abbrev pub Heard : ℕ → ℕ → TcpConnection → Type 0
Heard a b t = (opens t.calls ≡ a) × (goodbyes t.calls ≡ b)

module _ (k : ConnectionClass) where
  open k use {Conn, create, base, with_base, start, handle_requests, receive}

  -- What the class owes: its other operations call neither.
  pub record IsQuiet : Type 0 where
    pub new :
        (now : ℕ) (ip : Bytes) (port id : ℕ)
        → Heard 0 0 (
            base (
              with_base
                (create now)
                (record (base (create now)) { ip = ip; port = port; conn_id = id })))
    pub noted : (c : Conn) (t : TcpConnection) → base (with_base c t) ≡ t
    pub starts :
        (a b : ℕ) (s : TcpServer) (now : ℕ) (c : Conn)
        → Heard a b (base c)
        → Heard a b (base (start s now c))
    pub serves :
        (a b : ℕ) (s : TcpServer) (now : ℕ) (requests : List Request) (c : Conn)
        → Heard a b (base c)
        → Heard a b (base (handle_requests s now requests c))
    pub receives :
        (a b : ℕ) (s : TcpServer) (now : ℕ) (c c' : Conn) (bytes : Bytes)
        → receive s now c bytes ≡ some c'
        → Heard a b (base c)
        → Heard a b (base c')

  module _ (q : IsQuiet) (a b : ℕ) where
    pub on_new_connection-Heard :
        (now : ℕ) (s : TcpServer) (c : Conn)
        → (f : CallbackOpen) × (s.on_open ≡ some f)
        → Heard a b (base c)
        → Heard (suc a) b (base (on_new_connection k now s c).1)
    unfolding on_new_connection
    on_new_connection-Heard now s c (f, set) v =
        rw (set, on_new_connection)
          (q.serves (suc a) b (count_opened s) now (f (peer (base c))) (note k opened c) (
            rw (q.noted c (record (base c) { calls = opened ∷ (base c).calls })) (ap suc v.0, v.1)))

    pub on_close-Heard :
        (now : ℕ) (s : TcpServer) (c : Conn)
        → (f : CallbackClose) × (s.on_close ≡ some f)
        → Heard a b (base c)
        → Heard a (suc b) (base (on_close k now s c).1)
    unfolding on_close
    on_close-Heard now s c (f, set) v =
        rw (set, on_close)
          (q.serves a (suc b) (count_closed s) now (f (peer (base c))) (note k closed c) (
            rw (q.noted c (record (base c) { calls = closed ∷ (base c).calls })) (v.0, ap suc v.1)))

    on_read-conn :
        (now : ℕ) (nread : ℤ) (bytes : Bytes) (buffer : ℕ) (s server : TcpServer) (c c' : Conn)
        → on_read k now nread bytes buffer s c ≡ some (server, c')
        → (receive s now c bytes ≡ some c') ⊎ (note k close_bare c ≡ c')
    unfolding on_read
    on_read-conn now nread bytes buffer s server c c' e =
        elim (Option-cases (receive s now c bytes)) [
          | inl n ↦ inr (ground (arith, n))
          | inr (d, n) ↦ elim (Bool-cases (gtb_ℤ nread 0)) [
            | inl h ↦ inl (n ∙ ground (arith, n))
            | inr h ↦ inr (ground (arith, n))
          ]
        ]

    pub on_read-Heard :
        (now : ℕ) (nread : ℤ) (bytes : Bytes) (buffer : ℕ) (s server : TcpServer) (c c' : Conn)
        → on_read k now nread bytes buffer s c ≡ some (server, c')
        → Heard a b (base c)
        → Heard a b (base c')
    on_read-Heard now nread bytes buffer s server c c' e v =
        elim (on_read-conn now nread bytes buffer s server c c' e) [
          | inl ran ↦ q.receives a b s now c c' bytes ran v
          | inr same ↦
              subst (λ d. Heard a b (base d)) same
                (rw (q.noted c (record (base c) { calls = close_bare ∷ (base c).calls })) v)
        ]

  on_connection-conn :
      (now : ℕ) (status result : ℤ) (ip : Bytes) (port : ℕ) (s server : TcpServer) (c : Conn)
      (options : SocketOptions)
      → on_connection k now status result (ip, port) s ≡ (server, some (c, options))
      → let counted = record s { conn_id_counter = (s.conn_id_counter + 1) % 2 ^ 32 } in
        (on_new_connection k now counted (
          start counted now (
            with_base (create now) (record (base (create now)) {
              ip = ip;
              port = port;
              conn_id = s.conn_id_counter;
            })))).1
        ≡ c
  unfolding on_connection
  on_connection-conn now status result ip port s server c options e = ground arith

  pub on_connection-Heard :
      IsQuiet
      → (now : ℕ) (status result : ℤ) (from : Bytes × ℕ) (s server : TcpServer) (c : Conn)
        (options : SocketOptions)
      → (f : CallbackOpen) × (s.on_open ≡ some f)
      → on_connection k now status result from s ≡ (server, some (c, options))
      → Heard 1 0 (base c)
  on_connection-Heard q now status result (ip, port) s server c options set e =
      subst (λ d. Heard 1 0 (base d))
        (on_connection-conn now status result ip port s server c options e)
        (on_new_connection-Heard q 0 0 now _ _ set
          (q.starts 0 0 _ now _ (q.new now ip port s.conn_id_counter)))
