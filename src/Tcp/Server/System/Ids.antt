-- ===== src/Tcp/Server/System/Ids.antt =====
-- src/uv_net/tcp_server.cpp: the ids of the connections of a server.
use mathlib.Core.List.{Nodup, perm_middle, Nodup-cons, Mem, mem-cons, not-mem-nil}
use mathlib.Core.List.Perm
use mathlib.Core.Logic.Or
use libuv_server.Prelude.{ℕ, suc, ◌<◌, ◌≡◌, refl, sym, ap, ◌∙◌, List, [], ◌∷◌, ◌++◌, arith, All}
use libuv_server.Tcp.State.{TcpConnection}

abbrev pub ids : List TcpConnection → List ℕ
ids [] = []
ids (c ∷ cs) = c.conn_id ∷ ids cs

ids-append : (xs ys : List TcpConnection) → ids (xs ++ ys) ≡ ids xs ++ ids ys
ids-append [] ys = refl
ids-append (c ∷ xs) ys = ap (◌∷◌ c.conn_id) (ids-append xs ys)

-- A connection in the middle changes, but not its id.
module _ (before after : List TcpConnection) where
  pub ids-middle :
      (c c' : TcpConnection)
      → c'.conn_id ≡ c.conn_id
      → ids (before ++ c' ∷ after) ≡ ids (before ++ c ∷ after)
  ids-middle c c' e =
      ids-append before (c' ∷ after)
      ∙ ap (λ i. ids before ++ i ∷ ids after) e
      ∙ sym (ids-append before (c ∷ after))

  pub Nodup-without :
      (c : TcpConnection) → Nodup (ids (before ++ c ∷ after)) → Nodup (ids (before ++ after))
  Nodup-without c h =
      let moved =
        Perm.nodup (perm_middle (ids before) (ids after))
          (rw (ids-append before (c ∷ after)) at h) in
      rw (ids-append before after) ((Nodup-cons.0 moved).1)

pub not_mem_of_below : (n : ℕ) (is : List ℕ) → All (λ i. i < n) is → Mem n is → ⊥
not_mem_of_below n [] h m = absurd (not-mem-nil m)
not_mem_of_below n (i ∷ is) h m =
    Or.elim (hlevel) (mem-cons.0 m) (λ e. omega (arith, e, h.0)) (λ r. not_mem_of_below n is h.1 r)

pub All-raise : (n : ℕ) (is : List ℕ) → All (λ i. i < n) is → All (λ i. i < suc n) is
All-raise n [] h = tt
All-raise n (i ∷ is) h = (omega (arith, h.0), All-raise n is h.1)

pub All-without :
    (n : ℕ) (before after : List TcpConnection) (c : TcpConnection)
    → All (λ i. i < n) (ids (before ++ c ∷ after))
    → All (λ i. i < n) (ids (before ++ after))
All-without n [] after c h = h.1
All-without n (d ∷ before) after c h = (h.0, All-without n before after c h.1)
