-- ===== src/Tests.antt =====
-- Tests, and an instance of each theorem at a concrete input.
mod Toy
mod Names
mod Records
mod Proxies
mod ToyNet
mod Nodes
mod Tunnels
mod Agents
mod Keystores
mod Grinds
mod Sessions
mod Commands
mod SetUps
mod Homes
mod Outputs
mod Running
