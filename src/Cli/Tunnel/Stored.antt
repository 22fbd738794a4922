-- ===== src/Cli/Tunnel/Stored.antt =====
-- What `publish` put, at a storage node that takes part in the DHT.
use dotminecraft.Core.Crypto.{Crypto}
use dotminecraft.Core.Identity.{Identity}
use dotminecraft.Net.Swarm.{Swarm}
use dotminecraft.Net.Node.{Node}
