-- ===== src/Network.antt =====
-- boost_network: packets, buffers, sockets and connectors.
pub mod Packet
pub mod Buffer
pub mod Socket
pub mod Connector
pub mod Acceptor
pub mod BoostNetwork
mod Tests
