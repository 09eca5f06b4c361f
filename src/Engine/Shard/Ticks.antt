-- ===== src/Engine/Shard/Ticks.antt =====
-- include/lx/engine/shard.hpp: every message keeps a shard well formed.
use lite_exchange.Base.{ℕ, ◌≡◌, Bool, none, some, List, [], Option-cases, inl, inr}
use lite_exchange.Proto.Messages.{MsgType, InboundMsg}
use lite_exchange.Book.OrderHandle.{OrderHandle}
use lite_exchange.Queue.Spsc.{SpscQueue, pop}
use lite_exchange.Engine.Shard.{
  ShardConfig, Shard, handle_new, handle_cancel, local_book, dispatch, tick,
}
use lite_exchange.Engine.Shard.Invariant.{IsShard, After, unchanged}
use lite_exchange.Engine.Shard.Emits.{unmoved}
use lite_exchange.Engine.Shard.Handlers.{
  given, issued_by, Fair, handle_new-After, handle_cancel-After,
}

dispatch-After :
    {c : ShardConfig} {s : Shard} (v : IsShard c s) (m : InboundMsg)
    → Fair c s v.live m
    → After v (issued_by c m s) (dispatch c m s)
unfolding dispatch
dispatch-After {s = s} v (InboundMsg.header h) fair = unchanged v (unmoved s)
dispatch-After {c} {s} v (InboundMsg.new_order m) fair = by_type m.hdr.type
  where
    by_type :
        (t : MsgType)
        → After v
            (elim t [ MsgType.new_order ↦ given c m s | _ ↦ [] ])
            (elim t [ MsgType.new_order ↦ handle_new c m m.hdr.session_id s | _ ↦ s ])
    by_type MsgType.logon = unchanged v (unmoved s)
    by_type MsgType.new_order = handle_new-After v m m.hdr.session_id fair
    by_type MsgType.cancel_order = unchanged v (unmoved s)
    by_type MsgType.ack = unchanged v (unmoved s)
    by_type MsgType.reject = unchanged v (unmoved s)
    by_type MsgType.fill = unchanged v (unmoved s)
    by_type (MsgType.raw n) = unchanged v (unmoved s)
dispatch-After {c} {s} v (InboundMsg.cancel m) fair = by_type m.hdr.type
  where
    by_type :
        (t : MsgType)
        → After v []
            (elim t [ MsgType.cancel_order ↦ handle_cancel c m m.hdr.session_id s | _ ↦ s ])
    by_type MsgType.logon = unchanged v (unmoved s)
    by_type MsgType.new_order = unchanged v (unmoved s)
    by_type MsgType.cancel_order = handle_cancel-After v m m.hdr.session_id fair
    by_type MsgType.ack = unchanged v (unmoved s)
    by_type MsgType.reject = unchanged v (unmoved s)
    by_type MsgType.fill = unchanged v (unmoved s)
    by_type (MsgType.raw n) = unchanged v (unmoved s)

Fair-inbound :
    (c : ShardConfig) (s : Shard) (live : ℕ → Bool) (ring : SpscQueue InboundMsg) (m : InboundMsg)
    → Fair c s live m
    → Fair c (record s { inbound = ring }) live m
Fair-inbound c s live ring (InboundMsg.header h) fair = tt
Fair-inbound c s live ring (InboundMsg.new_order m) fair = fair
Fair-inbound c s live ring (InboundMsg.cancel m) fair = fair

-- The handles that a tick gives out.
abbrev pub tick_handles : ShardConfig → Shard → List OrderHandle
tick_handles c s =
    let (msg, rest) = pop c.ring_bits s.inbound in
    elim msg [ none ↦ [] | some m ↦ issued_by c m (record s { inbound = rest }) ]

-- Every fair message keeps the shard well formed.
pub tick-After :
    {c : ShardConfig} {s : Shard} (v : IsShard c s)
    → ((m : InboundMsg) → (pop c.ring_bits s.inbound).0 ≡ some m → Fair c s v.live m)
    → After v (tick_handles c s) (tick c s)
unfolding tick local_book
tick-After {c} {s} v fair = elim (Option-cases (pop c.ring_bits s.inbound).0) [
  | inl e ↦ rw (e, tick, tick_handles) (unchanged v (unmoved s))
  | inr (m, e) ↦
      let ring = (pop c.ring_bits s.inbound).1 in
      let waiting : IsShard c (record s { inbound = ring }) = record {
        live = v.live;
        queues = v.queues;
        hosted = v.hosted;
        book = v.book;
        home = v.home;
        nowhere = v.nowhere;
        placed = v.placed;
      } in
      let done = dispatch-After waiting m (Fair-inbound c s v.live ring m (fair m e)) in
      rw (e, tick, tick_handles)
        (record {
          shard = done.shard;
          ages = done.ages;
          current = done.current;
          same_id = done.same_id;
        })
]
