-- ===== src/Engine/ShardSet.antt =====
-- include/lx/engine/shard_set.hpp: the shards behind a gateway, with their router.
use lite_exchange.Base.{ℕ, Bool, List, update}
use lite_exchange.Proto.Messages.{InboundMsg, OutboundMsg}
use lite_exchange.Engine.Shard.{Shard}
use lite_exchange.Engine.ShardRouter

-- N, and the logarithm of the depth of each ring.
pub record ShardSet : Type 0 where
  pub count : ℕ
  pub ring_bits : ℕ
  pub shards : ℕ → Shard

-- `router().push`
unfoldable pub push : InboundMsg → ShardSet → Bool × ShardSet
push msg set =
    let (taken, shards) = ShardRouter.push set.ring_bits set.count msg set.shards in
    (taken, record set { shards = shards })

-- `outbound(shard_id)`
abbrev pub outbound : ℕ → ShardSet → List OutboundMsg
outbound i set = (set.shards i).outbound

-- What is left in it after a `pop`.
abbrev pub with_outbound : ℕ → List OutboundMsg → ShardSet → ShardSet
with_outbound i ms set = record set {
  shards = update set.shards i (record (set.shards i) { outbound = ms });
}
