-- ===== src/Proxy.antt =====
-- crates/proxy: the rate limiter and the two proxy loops. What is pumped through a tunnel is the
-- work of tokio and libp2p, and is not modelled.
pub mod Limiter
pub mod Tunnels
