-- ===== src/Engine/ShardRouter.antt =====
-- include/lx/engine/shard_router.hpp and shard_set.hpp: which of N shards a message goes to. The
-- shards are an array of N; `inbound()` of a shard is its ring.
pub mod Routes
use lite_exchange.Base.{ℕ, ◌%◌, Bool, true, Option, none, some, update}
use lite_exchange.Proto.Messages.{MsgType, InboundMsg}
use lite_exchange.Book.OrderHandle.{token_shard}
use lite_exchange.Queue.Spsc.{SpscQueue}
use lite_exchange.Queue.Spsc
use lite_exchange.Engine.Shard.{Shard}

-- The shard of a message, or none for a message that is skipped.
unfoldable pub route : ℕ → InboundMsg → Option ℕ
route n (InboundMsg.header h) = none
route n (InboundMsg.new_order m) = elim m.hdr.type [
  | MsgType.new_order ↦ some (m.symbol_id % n)
  | _ ↦ none
]
route n (InboundMsg.cancel m) = elim m.hdr.type [
  | MsgType.cancel_order ↦ some (token_shard m.order_token % n)
  | _ ↦ none
]

abbrev pub push_to : ℕ → ℕ → InboundMsg → (ℕ → Shard) → Bool × (ℕ → Shard)
push_to ring_bits i msg shards =
    let (taken, ring) = Spsc.push ring_bits msg (shards i).inbound in
    (taken, update shards i (record (shards i) { inbound = ring }))

unfoldable pub push : ℕ → ℕ → InboundMsg → (ℕ → Shard) → Bool × (ℕ → Shard)
unfolding route
push ring_bits n msg shards = elim (route n msg) [
  | none ↦ (true, shards)
  | some i ↦ push_to ring_bits i msg shards
]
