-- ===== src/Net.antt =====
-- crates/net: the network task over libp2p.
pub mod Swarm
pub mod Message
pub mod Setup
pub mod Behaviour
pub mod Node
pub mod Handle
