-- ===== src/Tcp/Server/System/Counted.antt =====
-- src/uv_net/tcp_server.cpp: the counters and the buffers of a server with its connections.
use mathlib.Core.List.{Nodup, Nodup-cons, Nodup-nil}
use libuv_server.Prelude.{
  ℕ, suc, ◌-◌, ◌%◌, ◌^◌, ◌≤◌, ◌<◌, ◌≡◌, refl, ap, ◌∙◌, some, List, ◌∷◌, ◌++◌, ℤ, arith, length,
  length-append, length-middle, All, Bytes,
}
use libuv_server.Config.{ServerConfig}
use libuv_server.BufferPool.Rounds.{IsIdle, round-IsIdle, round-buffer_size}
use libuv_server.Uv.{Uv}
use libuv_server.Tcp.State.{TcpConnection, TcpServer}
use libuv_server.Tcp.Server.{tcp_class, count_closed, on_close, on_alloc, on_read}
use libuv_server.Tcp.Server.System.{
  System, Step, refuses, accepts, reads, acts, deletes, Reach, at_start, and_then, idle,
}
use libuv_server.Tcp.Server.System.Ids.{
  ids, ids-middle, Nodup-without, not_mem_of_below, All-raise, All-without,
}
use libuv_server.Tcp.Server.System.Callbacks.{
  Action-HasId, IsTaken, on_connection-IsTaken, on_connection-refuses, on_read-keeps,
}

-- With the configuration `config` throughout.
pub record IsCounted (config : ServerConfig) (s : System) : Type 0 where
  pub configured : s.server.config ≡ config
  -- The count is that of the connections that are not deleted, and keeps the limit.
  pub counted : s.server.current_connections ≡ length s.conns
  pub limited : length s.conns ≤ config.max_connections
  pub numbered : s.server.conn_id_counter ≡ s.total % 2 ^ 32
  -- Until the counter wraps, no two connections have the same id.
  pub distinct : s.total ≤ 2 ^ 32 → Nodup (ids s.conns) × All (λ i. i < s.total) (ids s.conns)
  -- All buffers are back in the pool, which has one at most.
  pub pool : IsIdle s.server.buffer_pool
  -- What libuv is told that it may fill is not more than a buffer has.
  pub fits : s.server.config.read_buffer_size ≤ s.server.buffer_pool.buffer_size

module _ (uv : Uv) (config : ServerConfig) (max_fits : config.max_connections < 2 ^ 64) where
  accepts-IsCounted :
      (s : System) (server : TcpServer) (c : TcpConnection)
      → IsTaken uv s.server server c
      → IsCounted config s
      → IsCounted config (record { server = server; conns = c ∷ s.conns; total = suc s.total })
  accepts-IsCounted s server c t v =
      let most = ap (λ k. k.max_connections) v.configured in
      record {
        configured = t.same_config ∙ v.configured;
        counted = omega (arith, t.one_more, t.below, v.counted, most, max_fits);
        limited = omega (arith, t.below, v.counted, most);
        numbered = omega (arith, t.next_id, v.numbered);
        distinct = λ few.
            let old = v.distinct (omega (arith, few)) in
            let id : c.conn_id ≡ s.total = omega (arith, t.given_id, v.numbered, few) in
            (
              Nodup-cons.1
                  ((λ m. not_mem_of_below s.total (ids s.conns) old.1 (rw id at m)), old.0),
              (omega (arith, id), All-raise s.total (ids s.conns) old.1),
            );
        pool = rw t.same_pool v.pool;
        fits = rw (t.same_config, t.same_pool) v.fits;
      }

  -- A connection in the middle of the list changes, but neither its id nor the counters.
  middle-IsCounted :
      (s : System) (before after : List TcpConnection) (c c' : TcpConnection)
      → s.conns ≡ before ++ c ∷ after
      → c'.conn_id ≡ c.conn_id
      → IsCounted config s
      → IsCounted config (record s { conns = before ++ c' ∷ after })
  middle-IsCounted s before after c c' e same v = record {
    configured = v.configured;
    counted = omega (arith, v.counted, ap length e, length-middle before after c c');
    limited = omega (arith, v.limited, ap length e, length-middle before after c c');
    numbered = v.numbered;
    distinct = λ few. rw (ids-middle before after c c' same) (rw e at v.distinct few);
    pool = v.pool;
    fits = v.fits;
  }

  on_close-server :
      (now : ℕ) (s : TcpServer) (c : TcpConnection)
      → 0 < s.current_connections
      → (on_close (tcp_class uv) now s c).0
        ≡ record s { current_connections = s.current_connections - 1 }
  unfolding on_close count_closed
  on_close-server now s c h = ground arith

  deletes-IsCounted :
      (s : System) (before after : List TcpConnection) (c : TcpConnection) (now : ℕ)
      → s.conns ≡ before ++ c ∷ after
      → IsCounted config s
      → IsCounted config (record s {
        server = (on_close (tcp_class uv) now s.server c).0;
        conns = before ++ after;
      })
  deletes-IsCounted s before after c now e v =
      let size = length-append before (c ∷ after) in
      let rw_server =
        on_close-server now s.server c (omega (arith, v.counted, ap length e, size)) in
      rw rw_server (record {
        configured = v.configured;
        counted = omega (arith, v.counted, ap length e, size, length-append before after);
        limited = omega (arith, v.limited, ap length e, size, length-append before after);
        numbered = v.numbered;
        distinct = λ few.
            let old = rw e at v.distinct few in
            (Nodup-without before after c old.0, All-without s.total before after c old.1);
        pool = v.pool;
        fits = v.fits;
      })

  reads-IsCounted :
      (s : System) (before after : List TcpConnection) (c c' : TcpConnection) (now : ℕ) (nread : ℤ)
      (bytes : Bytes) (server : TcpServer)
      → s.conns ≡ before ++ c ∷ after
      → on_read
          (tcp_class uv)
          now
          nread
          bytes
          (on_alloc (tcp_class uv) s.server).0.0
          (on_alloc (tcp_class uv) s.server).1
          c
        ≡ some (server, c')
      → IsCounted config s
      → IsCounted config (record s { server = server; conns = before ++ c' ∷ after })
  unfolding on_alloc
  reads-IsCounted s before after c c' now nread bytes server e ran v =
      let kept = on_read-keeps uv now nread bytes _ _ server c c' ran in
      let w = middle-IsCounted s before after c c' e kept.1 v in
      rw kept.0 (record {
        configured = w.configured;
        counted = w.counted;
        limited = w.limited;
        numbered = w.numbered;
        distinct = w.distinct;
        pool = round-IsIdle s.server.buffer_pool v.pool;
        fits = omega (arith, v.fits, round-buffer_size s.server.buffer_pool);
      })

  Step-IsCounted : {s t : System} → Step uv s t → IsCounted config s → IsCounted config t
  Step-IsCounted (refuses s now status result from server e) v =
      rw (on_connection-refuses uv now status result from s.server server e) v
  Step-IsCounted (accepts s now status result from server c options e) v =
      accepts-IsCounted s server c
        (on_connection-IsTaken uv now status result from s.server server c options e) v
  Step-IsCounted (reads s before after c c' now nread bytes server e ran) v =
      reads-IsCounted s before after c c' now nread bytes server e ran v
  Step-IsCounted (acts s before after c c' e a) v =
      middle-IsCounted s before after c c' e (Action-HasId a refl) v
  Step-IsCounted (deletes s before after c now e h) v = deletes-IsCounted s before after c now e v

  -- A server with nothing counted yet and with buffers of the configured size, over any sequence of
  -- its callbacks and of those of all its connections: its count is the number of connections that
  -- are not deleted and keeps the limit; no two of them have the same id until 2 ^ 32 were accepted; and every read buffer is back in
  -- the pool, which never has more than one, and is as large as libuv is told.
  pub Reach-IsCounted :
      (server : TcpServer) {s : System}
      → server.config ≡ config
      → server.current_connections ≡ 0
      → server.conn_id_counter ≡ 0
      → IsIdle server.buffer_pool
      → config.read_buffer_size ≤ server.buffer_pool.buffer_size
      → Reach uv (idle server) s
      → IsCounted config s
  Reach-IsCounted server same none_there first pool fits at_start = record {
    configured = same;
    counted = none_there;
    limited = omega arith;
    numbered = first ∙ omega arith;
    distinct = λ few. (Nodup-nil, tt);
    pool = pool;
    fits = omega (arith, ap (λ k. k.read_buffer_size) same, fits);
  }
  Reach-IsCounted server same none_there first pool fits (and_then r st) =
      Step-IsCounted st (Reach-IsCounted server same none_there first pool fits r)
