-- ===== src/Cli/Commands.antt =====
-- The commands of crates/cli/src/main.rs that run on the network: what they take from the flags, the
-- configuration and the profile, and hand to crates/cli/src/tunnel.rs and agent.rs.
pub mod Roles
pub mod Named
use dotminecraft.Prelude.{ℕ, Bool, true, false, Option, Result, ok, err, ◌>>=◌}
use dotminecraft.Core.Text.{Str, Bytes}
use dotminecraft.Core.Identity.{Identity, secret_bytes}
use dotminecraft.Net.Swarm.{Swarm}
use dotminecraft.Net.Setup.{NetConfig}
use dotminecraft.Cli.Config.{Config, unwrap_or}
use dotminecraft.Cli.Tunnel.{NetOpts, net_config}
use dotminecraft.Cli.Tunnel.Sessions.{relay_config}
use dotminecraft.Cli.Keystore.{Profile, System, load_keyid_len}
use dotminecraft.Cli.Keystore as Keystore

pub record PublishArgs : Type 0 where
  pub target : Option Str
  pub vanity : Option Str
  pub max_conns : Option ℕ

pub record ConnectArgs : Type 0 where
  pub name : Str
  pub listen : Option Str

-- The arguments of `tunnel::publish` and `tunnel::connect`.
pub record PublishCall : Type 0 where
  pub identity : Identity
  pub net_cfg : NetConfig
  pub keyid_len : ℕ
  pub target : Str
  pub vanity : Str
  pub max_conns : ℕ
  pub max_conn_rate : ℕ

pub record ConnectCall : Type 0 where
  pub secret : Bytes
  pub net_cfg : NetConfig
  pub name : Str
  pub listen : Str

unfoldable pub net_opts : Config → Bool → Bool → NetOpts
net_opts cfg reserve relay_server = record {
  bootstrap = cfg.network.bootstrap;
  relays = cfg.network.relays;
  use_ipfs_dht = cfg.network.use_ipfs_dht;
  enable_mdns = cfg.network.mdns;
  reserve = reserve;
  relay_server = relay_server;
}

-- The first argument is what `Config::load` gave.
module _ {S : Type 0} (sw : Swarm S) (sys : System) (profile : Profile) where
  unfoldable pub cmd_publish : Result Str Config → PublishArgs → Result Str PublishCall
  unfolding net_opts
  cmd_publish loaded args = do
    cfg ← loaded
    id ← Keystore.load sys profile
    keyid_len ← load_keyid_len sys profile
    net_cfg ← net_config sw (net_opts cfg true false)
    ok (record {
      identity = id;
      net_cfg = net_cfg;
      keyid_len = keyid_len;
      target = unwrap_or cfg.publish.target args.target;
      vanity = unwrap_or cfg.publish.vanity args.vanity;
      max_conns = unwrap_or cfg.publish.max_conns args.max_conns;
      max_conn_rate = cfg.publish.max_conn_rate;
    })

  unfoldable pub cmd_connect : Result Str Config → ConnectArgs → Result Str ConnectCall
  unfolding net_opts
  cmd_connect loaded args = do
    cfg ← loaded
    id ← Keystore.load sys profile
    net_cfg ← net_config sw (net_opts cfg false false)
    ok (record {
      secret = secret_bytes id;
      net_cfg = net_cfg;
      name = args.name;
      listen = unwrap_or cfg.connect.listen args.listen;
    })

  -- `cmd_doctor`, and `cmd_agent` up to its control port: the secret and the configuration of the node.
  unfoldable pub cmd_node : Result Str Config → Result Str (Bytes × NetConfig)
  unfolding net_opts
  cmd_node loaded = do
    cfg ← loaded
    id ← Keystore.load sys profile
    net_cfg ← net_config sw (net_opts cfg false false)
    ok (secret_bytes id, net_cfg)

  unfoldable pub cmd_relay : ℕ → Bool → Result Str (Bytes × NetConfig)
  cmd_relay port mdns = do
    id ← Keystore.load sys profile
    net_cfg ← relay_config sw port mdns
    ok (secret_bytes id, net_cfg)
