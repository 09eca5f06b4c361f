-- ===== src/Net.antt =====
-- include/lx/net: sessions and the reactors.
pub mod Session
pub mod Sockets
pub mod Routing
pub mod Gateway
pub mod UringGateway
pub mod Listener
pub mod Examples
