-- ===== src/BufferPool/Ownership.antt =====
-- include/uv_net/buffer_pool.h: who holds the buffers of a pool, over any history of calls.
use Prim.Native.Nat.{max}
use mathlib.Core.List.{Perm, Nodup, perm_middle, perm_append_singleton, Nodup-cons, Nodup-nil, Mem}
use mathlib.Core.List.Perm
use mathlib.Core.List.{mem-cons, not-mem-nil}
use mathlib.Core.Logic.Or
use native.Mathlib.Numerals.{add-one}
use native.Mathlib.Bridge.{le_prop}
use libuv_server.Prelude.{
  ℕ, zero, suc, ◌+◌, ◌<◌, ◌≡◌, ap, List, [], ◌∷◌, ◌++◌, arith, length, length-append, append_assoc,
}
use libuv_server.BufferPool.{BufferPool, make_pool, acquire_buffer, release_buffer}

-- The pool, the buffers that its users hold, and the largest number that they ever held at once.
pub record Users : Type 0 where
  pub held : List ℕ
  pub pool : BufferPool
  pub peak : ℕ

abbrev pub start : ℕ → Users
start size = record { held = []; pool = make_pool size; peak = 0 }

-- A user takes a buffer, or gives back one that it holds.
pub data Step : Users → Users → Type 0 where
  acquires :
      (u : Users)
      → Step u (record {
        held = (acquire_buffer u.pool).0 ∷ u.held;
        pool = (acquire_buffer u.pool).1;
        peak = max u.peak (suc (length u.held));
      })
  releases :
      (u : Users) (before after : List ℕ) (b : ℕ)
      → u.held ≡ before ++ (b ∷ after)
      → Step u (record u { held = before ++ after; pool = release_buffer u.pool b })

pub data Reach (s : Users) : Users → Type 0 where
  here : Reach s s
  next : {t u : Users} → Reach s t → Step t u → Reach s u

-- The numbers below `n`, the largest first.
abbrev pub below : ℕ → List ℕ
below zero = []
below (suc n) = n ∷ below n

-- The buffers held and those free are together all that were ever allocated, each once.
pub record IsSound (u : Users) : Type 0 where
  pub shared : Perm (u.held ++ u.pool.free_buffers) (below u.pool.allocated)
  pub counted : length u.held + length u.pool.free_buffers ≡ u.pool.allocated
  pub thrifty : u.pool.allocated ≡ u.peak

-- The three facts on the fields of a pool.
module _ (size : ℕ) (held : List ℕ) where
  acquire-IsSound :
      (free : List ℕ) (n peak : ℕ)
      → (let p : BufferPool = record { buffer_size = size; free_buffers = free; allocated = n } in
          IsSound (record { held = held; pool = p; peak = peak })
          → IsSound (record {
            held = (acquire_buffer p).0 ∷ held;
            pool = (acquire_buffer p).1;
            peak = max peak (suc (length held));
          }))
  unfolding acquire_buffer
  acquire-IsSound [] n peak h = record {
    shared = rw add-one (Perm.cons n h.shared);
    counted = omega (arith, h.counted);
    thrifty = omega (arith, h.counted, h.thrifty);
  }
  acquire-IsSound (b ∷ rest) n peak h = record {
    shared = Perm.trans (Perm.symm (perm_middle held rest)) h.shared;
    counted = omega (arith, h.counted);
    thrifty = omega (arith, h.counted, h.thrifty);
  }

release-shared :
    (before after free bs : List ℕ) (b : ℕ)
    → Perm ((before ++ (b ∷ after)) ++ free) bs
    → Perm ((before ++ after) ++ (free ++ b ∷ [])) bs
release-shared before after free bs b h = rw (← append_assoc (before ++ after) free (b ∷ [])) (
    Perm.trans (perm_append_singleton b ((before ++ after) ++ free))
      (Perm.trans (Perm.append_right free (Perm.symm (perm_middle before after))) h))

Step-IsSound : {u v : Users} → Step u v → IsSound u → IsSound v
unfolding release_buffer
Step-IsSound (acquires u) h =
    acquire-IsSound u.pool.buffer_size u.held u.pool.free_buffers u.pool.allocated u.peak h
Step-IsSound (releases u before after b e) h = record {
  shared = release-shared before after u.pool.free_buffers _ b (rw e at h.shared);
  counted = omega (
    arith,
    h.counted,
    ap length e,
    length-append before (b ∷ after),
    length-append before after,
    length-append u.pool.free_buffers (b ∷ []),
  );
  thrifty = h.thrifty;
}

start-IsSound : (size : ℕ) → IsSound (start size)
unfolding make_pool
start-IsSound size = record { shared = Perm.nil; counted = omega arith; thrifty = omega arith }

-- After any history of calls on a new pool, each buffer ever allocated is held by one user or
-- free, once, and no more were allocated than the users held at one time.
pub Reach-IsSound : (size : ℕ) {u : Users} → Reach (start size) u → IsSound u
Reach-IsSound size here = start-IsSound size
Reach-IsSound size (next r st) = Step-IsSound st (Reach-IsSound size r)

lt_of_mem-below : {a : ℕ} (n : ℕ) → Mem a (below n) → a < n
lt_of_mem-below zero m = absurd (not-mem-nil m)
lt_of_mem-below (suc n) m =
    Or.elim le_prop (mem-cons.0 m) (λ e. omega (arith, e)) (λ r. omega (arith, lt_of_mem-below n r))

below-Nodup : (n : ℕ) → Nodup (below n)
below-Nodup zero = Nodup-nil
below-Nodup (suc n) =
    Nodup-cons.1 ((λ m. absurd (omega (arith, lt_of_mem-below n m))), below-Nodup n)

-- After any history of calls on a new pool, no buffer is handed to two users at once, or free while
-- it is held.
Reach-Nodup : (size : ℕ) {u : Users} → Reach (start size) u → Nodup (u.held ++ u.pool.free_buffers)
Reach-Nodup size {u} r =
    let h = Reach-IsSound size r in Perm.nodup (Perm.symm h.shared) (below-Nodup u.pool.allocated)
