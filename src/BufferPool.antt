-- ===== src/BufferPool.antt =====
-- include/uv_net/buffer_pool.h: the pool of read buffers.
-- A buffer is named by the number of its allocation: `new char[]` hands out `allocated` and counts
-- it up, so a new buffer is none of the older ones. The event loop runs on one thread; the mutex
-- has no part in the model.
pub mod Ownership
pub mod Rounds
use libuv_server.Prelude.{ℕ, ◌+◌, List, [], ◌∷◌, ◌++◌}

pub record BufferPool : Type 0 where
  pub buffer_size : ℕ
  -- Front of the queue first.
  pub free_buffers : List ℕ
  pub allocated : ℕ

unfoldable pub make_pool : ℕ → BufferPool
make_pool size = record { buffer_size = size; free_buffers = []; allocated = 0 }

-- The buffer handed out, and the pool without it.
unfoldable pub acquire_buffer : BufferPool → ℕ × BufferPool
acquire_buffer p = elim p.free_buffers [
  | [] ↦ (p.allocated, record p { allocated = p.allocated + 1 })
  | buffer ∷ rest ↦ (buffer, record p { free_buffers = rest })
]

unfoldable pub release_buffer : BufferPool → ℕ → BufferPool
release_buffer p buffer = record p { free_buffers = p.free_buffers ++ buffer ∷ [] }

pub get_buffer_size : BufferPool → ℕ
get_buffer_size p = p.buffer_size

-- The destructor: the buffers that it deletes, in order, and the pool left.
delete_all : List ℕ → List ℕ
delete_all [] = []
delete_all (buffer ∷ rest) = buffer ∷ delete_all rest

pub destroy : BufferPool → List ℕ × BufferPool
unfolding delete_all
destroy p = (delete_all p.free_buffers, record p { free_buffers = [] })
