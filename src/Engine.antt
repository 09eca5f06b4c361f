-- ===== src/Engine.antt =====
-- include/lx/engine: a matching shard, the router in front of the shards, and their set.
pub mod Shard
pub mod ShardRouter
pub mod Examples
pub mod ShardExamples
pub mod ShardSet
