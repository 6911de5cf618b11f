-- ===== src/BufferPool/Rounds.antt =====
-- include/uv_net/buffer_pool.h: a user that gives each buffer back before it takes the next.
use libuv_server.Prelude.{ℕ, ◌≤◌, ◌≡◌, refl, List, [], ◌∷◌, arith, length, length-append}
use libuv_server.BufferPool.{BufferPool, make_pool, acquire_buffer, release_buffer}

-- All buffers of the pool are free, and there is at most one.
pub record IsIdle (p : BufferPool) : Type 0 where
  pub all_free : length p.free_buffers ≡ p.allocated
  pub at_most_one : p.allocated ≤ 1

pub make_pool-IsIdle : (size : ℕ) → IsIdle (make_pool size)
unfolding make_pool
make_pool-IsIdle size = record { all_free = refl; at_most_one = omega arith }

round_on :
    (free : List ℕ) (size n : ℕ)
    → (let p : BufferPool = record { buffer_size = size; free_buffers = free; allocated = n } in
        IsIdle p → IsIdle (release_buffer (acquire_buffer p).1 (acquire_buffer p).0))
unfolding acquire_buffer release_buffer
round_on [] size n h = record {
  all_free = omega (arith, h.all_free);
  at_most_one = omega (arith, h.all_free);
}
round_on (b ∷ rest) size n h = record {
  all_free = omega (arith, h.all_free, length-append rest (b ∷ []));
  at_most_one = h.at_most_one;
}

-- One buffer is taken and given back.
pub round-IsIdle :
    (p : BufferPool) → IsIdle p → IsIdle (release_buffer (acquire_buffer p).1 (acquire_buffer p).0)
round-IsIdle p h = round_on p.free_buffers p.buffer_size p.allocated h

-- Neither call changes how large the buffers are.
pub round-buffer_size :
    (p : BufferPool)
    → (release_buffer (acquire_buffer p).1 (acquire_buffer p).0).buffer_size ≡ p.buffer_size
unfolding acquire_buffer release_buffer
round-buffer_size p = ground arith
