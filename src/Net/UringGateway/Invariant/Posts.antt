-- ===== src/Net/UringGateway/Invariant/Posts.antt =====
-- include/lx/net/uring_gateway.hpp: `drain_outbound` and the slots of its sends.
use lite_exchange.Base.{
  ℕ, ◌+◌, ◌≤◌, ◌<◌, ◌≡◌, refl, sym, ◌∙◌, ap, inl, inr, arith, Bool, true, false, ◌==◌, ==→eq,
  if◌then◌else◌, Bool-cases, Option-cases, List, [], ◌∷◌, ◌++◌, update, update_ne,
}
use mathlib.Core.List.{append_assoc, append-nil}
use lite_exchange.Proto.Messages.{OutboundMsg, outbound_hdr}
use lite_exchange.Proto.Codec.Outbound.{wire}
use lite_exchange.Engine.Shard.{Shard}
use lite_exchange.Book.Pool.Free.{IsPool}
use lite_exchange.Net.UringGateway.{
  UringGateway, Effect, prep, send, send_now, call, tag, op_send, get_sqe, invalid_slot,
  alloc_send_slot, post_send, deliver, drain_queue, drain_outbound,
}
use lite_exchange.Net.UringGateway.Invariant.{
  IsUring, sending, count, count-append, as_pool, prepared,
}
use lite_exchange.Net.UringGateway.Invariant.Flight.{
  count-last, Known-last, retrace, Added, then_added, none_added, call-Added, submit_all-trace,
}
use lite_exchange.Net.UringGateway.Invariant.Sends.{
  send-same, send-apart, accept-send, recv-send, alloc_send_slot-IsPool, kept_count, ne-of,
  taken_count,
}

popped :
    (shard : Shard) (u : UringGateway) (flight : List ℕ)
    → IsUring u flight
    → IsUring (record u { shard = shard }) flight
popped shard u flight v = record {
  routing = v.routing;
  live = v.live;
  pool = v.pool;
  accepts = v.accepts;
  receives = v.receives;
  sends = v.sends;
  known = v.known;
  fds = v.fds;
}

module _ (busy : List Effect → ℕ) (ring_bits : ℕ) where
  -- A send more in flight, from a slot that was free.
  posted-IsUring :
      (slot top : ℕ) (pool : ℕ → OutboundMsg) (t : List Effect) (u : UringGateway) (flight : List ℕ)
      (v : IsUring u flight)
      → slot < 512
      → v.live slot ≡ false
      → IsPool 512 (as_pool (record u { free_top = top })) (update v.live slot true)
      → IsUring
          (record u { send_pool = pool; free_top = top; trace = t })
          (flight ++ tag op_send slot ∷ [])
  posted-IsUring slot top pool t u flight v h unused p = record {
    routing = v.routing;
    live = update v.live slot true;
    pool = record {
      below = p.below;
      unused = p.unused;
      once = p.once;
      kept = p.kept;
      total = p.total;
    };
    accepts = count-last _ _ flight ∙ ground (arith, accept-send slot h, v.accepts);
    receives =
        λ fd hf. count-last _ _ flight ∙ ground (arith, recv-send fd slot hf h, v.receives fd hf);
    sends = λ j hj. elim (Bool-cases (j == slot)) [
      | inl same ↦ taken_count v.live j slot same unused (one_more flight j same) (v.sends j hj)
      | inr other ↦ kept_count v.live j slot other (apart flight j hj other) (v.sends j hj)
    ];
    known = Known-last _ flight v.known (sending slot h refl);
    fds = v.fds;
  }
    where
      apart :
          (flight : List ℕ) (j : ℕ)
          → j < 512
          → (j == slot) ≡ false
          → count (tag op_send j) (flight ++ tag op_send slot ∷ []) ≡ count (tag op_send j) flight
      apart flight j hj other =
          count-last (tag op_send j) (tag op_send slot) flight
          ∙ ap (λ (t : Bool). (if t then 1 else 0) + count (tag op_send j) flight)
              (send-apart j slot hj h (ne-of j slot other))
          ∙ omega arith

      one_more :
          (flight : List ℕ) (j : ℕ)
          → (j == slot) ≡ true
          → count (tag op_send j) (flight ++ tag op_send slot ∷ [])
            ≡ 1 + count (tag op_send j) flight
      one_more flight j same =
          count-last (tag op_send j) (tag op_send slot) flight
          ∙ ap (λ (t : Bool). (if t then 1 else 0) + count (tag op_send j) flight)
              (send-same j slot (==→eq j slot same))

  -- After messages were taken to their clients: what is in flight more, and that no slot of a send in
  -- flight was written.
  pub record Posted (u u' : UringGateway) (flight : List ℕ) : Type 0 where
    pub new : List ℕ
    pub added : Added new u u'
    pub uring : IsUring u' (flight ++ new)
    pub untouched :
        (slot : ℕ)
        → slot < 512
        → 1 ≤ count (tag op_send slot) flight
        → u'.send_pool slot ≡ u.send_pool slot

  Posted-none :
      (u u' : UringGateway) (flight : List ℕ)
      → Added [] u u'
      → IsUring u' flight
      → u'.send_pool ≡ u.send_pool
      → Posted u u' flight
  Posted-none u u' flight a v e = record {
    new = [];
    added = a;
    uring = rw (append-nil flight) v;
    untouched = λ slot h l. ap (λ (p : ℕ → OutboundMsg). p slot) e;
  }

  post_send-Posted :
      (fd slot top : ℕ) (m : OutboundMsg) (u : UringGateway) (flight : List ℕ)
      (v : IsUring u flight)
      → slot < 512
      → v.live slot ≡ false
      → IsPool 512 (as_pool (record u { free_top = top })) (update v.live slot true)
      → Posted u (post_send busy ring_bits fd slot m (record u { free_top = top })) flight
  unfolding post_send get_sqe prepared
  post_send-Posted fd slot top m u flight v h unused p =
      let u2 = record u { free_top = top; send_pool = update u.send_pool slot m } in
      let r = submit_all-trace (busy u.trace) u2 in
      rw r.1 (record {
        new = tag op_send slot ∷ [];
        added =
            then_added [] (tag op_send slot ∷ []) u (record u2 { trace = r.0 })
              (call (prep (send fd slot (outbound_hdr m).len) (tag op_send slot))
                (record u2 { trace = r.0 }))
              r.2
              (call-Added (prep (send fd slot (outbound_hdr m).len) (tag op_send slot))
                (record u2 { trace = r.0 }));
        uring = posted-IsUring slot top (update u.send_pool slot m) _ u flight v h unused p;
        untouched = λ j hj l.
            update_ne u.send_pool slot m j (λ e. ground (arith, e, unused, v.sends j hj, l));
      })

  deliver-Posted :
      (m : OutboundMsg) (u : UringGateway) (flight : List ℕ)
      → IsUring u flight
      → Posted u (deliver busy ring_bits m u) flight
  unfolding deliver prepared
  deliver-Posted m u flight v = elim (Option-cases (u.sid_to_fd (outbound_hdr m).session_id)) [
    | inl h ↦ rw (h, deliver) (Posted-none u u flight (none_added u) v refl)
    | inr (fd, h) ↦
        rw (h, deliver)
          (elim (alloc_send_slot-IsPool u v.live v.pool) [
            | inl (full, same) ↦
                rw (full, same)
                  (Posted-none u _ flight (call-Added (send_now fd (wire m)) u)
                    (retrace u _ flight v) refl)
            | inr (top, below, unused, e, p) ↦
                let slot = (alloc_send_slot u).0 in
                let valid : (slot == invalid_slot) ≡ false = ground (arith, below) in
                rw (valid, e) (post_send-Posted fd slot top m u flight v below unused p)
          ])
  ]

  drain_queue-Posted :
      (ms : List OutboundMsg) (u : UringGateway) (flight : List ℕ)
      → IsUring u flight
      → Posted u (drain_queue busy ring_bits ms u) flight
  unfolding drain_queue
  drain_queue-Posted [] u flight v = Posted-none u u flight (none_added u) v refl
  drain_queue-Posted (m ∷ ms) u flight v =
      let u1 = record u { shard = record u.shard { outbound = ms } } in
      let one = deliver-Posted m u1 flight (popped (record u.shard { outbound = ms }) u flight v) in
      let u2 = deliver busy ring_bits m u1 in
      let rest = drain_queue-Posted ms u2 (flight ++ one.new) one.uring in
      record {
        new = one.new ++ rest.new;
        added =
            then_added one.new rest.new u u2 (drain_queue busy ring_bits ms u2) one.added
              rest.added;
        uring = rw (sym (append_assoc flight one.new rest.new)) rest.uring;
        untouched = λ slot h l.
            rest.untouched slot h (omega (arith, l, count-append (tag op_send slot) flight one.new))
            ∙ one.untouched slot h l;
      }

  -- Draining keeps the invariant, with the sends that it posts in flight, and writes no slot of a send that
  -- was in flight.
  pub drain_outbound-Posted :
      (u : UringGateway) (flight : List ℕ)
      → IsUring u flight
      → Posted u (drain_outbound busy ring_bits u) flight
  unfolding drain_outbound
  drain_outbound-Posted u flight v = drain_queue-Posted u.shard.outbound u flight v
