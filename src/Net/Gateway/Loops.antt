-- ===== src/Net/Gateway/Loops.antt =====
-- include/lx/net/gateway.hpp: the loops over `accept` and `recv` end when the kernel has no more.
use lite_exchange.Base.{ℕ, zero, suc, ◌<◌, ◌≡◌, refl, ◌⊎◌, inl, inr, arith, Option-cases, some}
use lite_exchange.Proto.Codec.{Bytes}
use lite_exchange.Engine.ShardSet.{ShardSet}
use lite_exchange.Net.Session.{Session}
use lite_exchange.Net.Sockets.{Sockets, IsFinite, Received, bytes, hung_up, failed}
use lite_exchange.Net.Gateway.{Gateway, accept_one, accept_all, receive}

Received-cases : (r : Received) → ((buf : Bytes) × (r ≡ bytes buf)) ⊎ ((r ≡ hung_up) ⊎ (r ≡ failed))
Received-cases (bytes buf) = inl (buf, refl)
Received-cases hung_up = inr (inl refl)
Received-cases failed = inr (inr refl)

module _ {K : Type 0} (net : Sockets K) (finite : IsFinite net) where
  accept_one-backlog :
      (fd : ℕ) (g : Gateway K)
      → (net.accept g.kernel).0 ≡ some fd
      → finite.backlog (accept_one net fd (record g { kernel = (net.accept g.kernel).1 })).kernel
        < finite.backlog g.kernel
  unfolding accept_one
  accept_one-backlog fd g e =
      let k1 = net.set_nonblocking fd (net.accept g.kernel).1 in
      let k2 = net.set_nodelay fd k1 in
      omega (
        arith,
        finite.accept_backlog g.kernel fd e,
        finite.nonblocking_backlog fd (net.accept g.kernel).1,
        finite.nodelay_backlog fd k1,
        finite.watch_backlog fd k2,
      )

  -- `accept_all` accepts all that wait: more rounds than connections change nothing.
  pub accept_all-backlog :
      (m n : ℕ) (g : Gateway K)
      → finite.backlog g.kernel < m
      → finite.backlog g.kernel < n
      → accept_all net m g ≡ accept_all net n g
  unfolding accept_all
  accept_all-backlog zero n g h k = absurd (omega arith)
  accept_all-backlog (suc m) zero g h k = absurd (omega arith)
  accept_all-backlog (suc m) (suc n) g h k = elim (Option-cases (net.accept g.kernel).0) [
    | inl e ↦ rw (e, accept_all) refl
    | inr (fd, e) ↦
        let fewer = accept_one-backlog fd g e in
        rw (e, accept_all) (accept_all-backlog m n _ (omega (arith, fewer)) (omega (arith, fewer)))
  ]

  -- `read_session` reads all that is there: more rounds than that change nothing.
  receive-unread :
      (m n fd : ℕ) (s : Session) (shards : ShardSet) (k : K)
      → finite.unread fd k < m
      → finite.unread fd k < n
      → receive net m fd s shards k ≡ receive net n fd s shards k
  unfolding receive
  receive-unread zero n fd s shards k h h' = absurd (omega arith)
  receive-unread (suc m) zero fd s shards k h h' = absurd (omega arith)
  receive-unread (suc m) (suc n) fd s shards k h h' = elim (Received-cases (net.recv fd k).0) [
    | inl (buf, e) ↦
        let less = finite.recv_unread fd k buf e in
        rw (e, receive) (receive-unread m n fd _ _ _ (omega (arith, less)) (omega (arith, less)))
    | inr (inl e) ↦ rw (e, receive) refl
    | inr (inr e) ↦ rw (e, receive) refl
  ]
