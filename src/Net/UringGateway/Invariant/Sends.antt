-- ===== src/Net/UringGateway/Invariant/Sends.antt =====
-- include/lx/net/uring_gateway.hpp: the slots of the sends. A slot that a send in flight reads from is not
-- given out, so nothing is written there until the send completes.
use lite_exchange.Base.{
  ℕ, ◌+◌, ◌-◌, ◌^◌, ◌<◌, ◌≡◌, refl, ◌∙◌, ap, ◌≢◌, ◌⊎◌, inl, inr, arith, Bool, true, false, ◌==◌,
  ==→eq, if◌then◌else◌, Bool-cases, List, ◌∷◌, ◌++◌, update,
}
use lite_exchange.Book.Pool.{alloc, free}
use lite_exchange.Book.Pool.Free.{IsPool, alloc-IsPool, free-IsPool}
use lite_exchange.Net.UringGateway.{
  UringGateway, tag, op_accept, op_recv, op_send, invalid_slot, alloc_send_slot, free_send_slot,
}
use lite_exchange.Net.UringGateway.Invariant.{IsUring, count, as_pool}
use lite_exchange.Net.UringGateway.Invariant.Flight.{count-within, Known-without, tag-ne}

pub send-same : (j slot : ℕ) → j ≡ slot → (tag op_send j == tag op_send slot) ≡ true
send-same j slot e = rw e (ground arith)

pub send-apart :
    (j slot : ℕ) → j < 512 → slot < 512 → j ≢ slot → (tag op_send j == tag op_send slot) ≡ false
send-apart j slot hj hs n =
    tag-ne op_send op_send j slot (omega arith) (omega arith) (omega arith) (omega arith) (inr n)

pub accept-send : (slot : ℕ) → slot < 512 → (tag op_accept 0 == tag op_send slot) ≡ false
accept-send slot h =
    tag-ne op_accept op_send 0 slot (omega arith) (omega arith) (omega arith) (omega arith)
      (inl (λ e. omega arith))

pub recv-send :
    (fd slot : ℕ) → fd < 2 ^ 31 → slot < 512 → (tag op_recv fd == tag op_send slot) ≡ false
recv-send fd slot h hs =
    tag-ne op_recv op_send fd slot (omega arith) (omega arith) (omega arith) (omega arith)
      (inl (λ e. omega arith))

-- What `alloc_send_slot` does: no slot where all are in use, or a free one.
pub alloc_send_slot-IsPool :
    (u : UringGateway) (live : ℕ → Bool)
    → IsPool 512 (as_pool u) live
    → let (slot, u') = alloc_send_slot u in
      ((slot ≡ invalid_slot) × (u' ≡ u))
      ⊎ ((top : ℕ) × (slot < 512)
          × (live slot ≡ false)
          × (u' ≡ record u { free_top = top })
          × IsPool 512 (as_pool (record u { free_top = top })) (update live slot true))
unfolding alloc_send_slot alloc
alloc_send_slot-IsPool u live v = elim (Bool-cases (u.free_top == 0)) [
  | inl full ↦ rw full (inl (refl, refl))
  | inr room ↦ rw room (elim (rw room at (alloc-IsPool 512 v (omega arith))) [
    | inl (all, q, e) ↦ ground (arith, all, room, v.total)
    | inr (below, unused, p) ↦ inr (u.free_top - 1, below, unused, refl, p)
  ])
]

freed_count :
    (live : ℕ → Bool) (j slot : ℕ) {m n : ℕ}
    → (j == slot) ≡ true
    → live slot ≡ true
    → m ≡ 1 + n
    → m ≡ (if live j then 1 else 0)
    → n ≡ (if update live slot false j then 1 else 0)
freed_count live j slot same used e e' = ground arith

pub kept_count :
    (live : ℕ → Bool) (j slot : ℕ) {m n : ℕ}
    → (j == slot) ≡ false
    → m ≡ n
    → n ≡ (if live j then 1 else 0)
    → m ≡ (if update live slot true j then 1 else 0)
kept_count live j slot other e e' = ground arith

pub ne-of : (j slot : ℕ) → (j == slot) ≡ false → j ≢ slot
ne-of j slot other = ground (arith, other)

pub taken_count :
    (live : ℕ → Bool) (j slot : ℕ) {m n : ℕ}
    → (j == slot) ≡ true
    → live slot ≡ false
    → m ≡ 1 + n
    → n ≡ (if live j then 1 else 0)
    → m ≡ (if update live slot true j then 1 else 0)
taken_count live j slot same unused e e' = ground arith

-- A send completes, and its slot is free again.
pub free_send_slot-IsUring :
    (slot : ℕ) (u : UringGateway) (a b : List ℕ)
    → slot < 512
    → IsUring u (a ++ tag op_send slot ∷ b)
    → IsUring (free_send_slot slot u) (a ++ b)
unfolding free_send_slot free
free_send_slot-IsUring slot u a b h v = record {
  routing = v.routing;
  live = update v.live slot false;
  pool = freed v;
  accepts =
      ground (
        arith,
        count-within (tag op_accept 0) (tag op_send slot) a b,
        accept-send slot h,
        v.accepts,
      );
  receives = λ fd hf. ground (
    arith,
    count-within (tag op_recv fd) (tag op_send slot) a b,
    recv-send fd slot hf h,
    v.receives fd hf,
  );
  sends = λ j hj. elim (Bool-cases (j == slot)) [
    | inl same ↦ freed_count v.live j slot same (in_use v) (one_less a b j same) (v.sends j hj)
    | inr other ↦ ground (
      arith,
      other,
      count-within (tag op_send j) (tag op_send slot) a b,
      send-apart j slot hj h (ground (arith, other)),
      v.sends j hj,
    )
  ];
  known = Known-without _ a b v.known;
  fds = v.fds;
}
  where
    one_less :
        (a b : List ℕ) (j : ℕ)
        → (j == slot) ≡ true
        → count (tag op_send j) (a ++ tag op_send slot ∷ b) ≡ 1 + count (tag op_send j) (a ++ b)
    one_less a b j same =
        count-within (tag op_send j) (tag op_send slot) a b
        ∙ ap (λ (t : Bool). (if t then 1 else 0) + count (tag op_send j) (a ++ b))
            (send-same j slot (==→eq j slot same))

    in_use : (v : IsUring u (a ++ tag op_send slot ∷ b)) → v.live slot ≡ true
    in_use v = ground (
      arith,
      count-within (tag op_send slot) (tag op_send slot) a b,
      send-same slot slot refl,
      v.sends slot h,
    )

    freed :
        (v : IsUring u (a ++ tag op_send slot ∷ b))
        → IsPool 512 (as_pool (free_send_slot slot u)) (update v.live slot false)
    freed v =
        let p = (free-IsPool 512 slot v.pool (omega arith) h (in_use v)).2 in
        record { below = p.below; unused = p.unused; once = p.once; kept = p.kept; total = p.total }
