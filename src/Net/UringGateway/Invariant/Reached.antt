-- ===== src/Net/UringGateway/Invariant/Reached.antt =====
-- include/lx/net/uring_gateway.hpp: what holds in every state that the gateway can reach.
use lite_exchange.Base.{List}
use lite_exchange.Engine.Shard.{Shard}
use lite_exchange.Book.Pool
use lite_exchange.Net.UringGateway.{UringGateway}
