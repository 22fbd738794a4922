-- ===== src/Cli/Tunnel/Sessions.antt =====
-- `publish`, `connect` and `relay` of crates/cli/src/tunnel.rs: what they do before their loops
-- run. The swarm is built from the secret by the builder of libp2p, an argument.
pub mod Meet
use dotminecraft.Prelude.{
  ℕ, Bool, true, Option, none, some, List, [], ◌∷◌, ◌++◌, map, Result, ok, err, ◌>>=◌,
}
use dotminecraft.Core.Text.{Str, Bytes, text}
use dotminecraft.Core.Error.{CoreError}
use dotminecraft.Core.Crypto.{Crypto}
use dotminecraft.Core.Identity.{Identity, public_bytes, secret_bytes, name}
use dotminecraft.Core.Name.{Name, parse, keyid_from_pubkey}
use dotminecraft.Core.Record.{dht_key}
use dotminecraft.Net.Swarm.{Swarm, PeerId, Multiaddr}
use dotminecraft.Net.Behaviour.{Builder, keypair_from_secret, build_swarm}
use dotminecraft.Net.Setup.{NetConfig, prepare}
use dotminecraft.Net.Message.{DoctorInfo}
use dotminecraft.Cli.Tunnel.{Attempt, filter_dialable, establish}
use dotminecraft.Cli.Keystore.{show_usize, or_deriving}

-- What `publish` has at hand when its tasks start.
pub record Publishing (S : Type 0) : Type 0 where
  pub swarm : S
  pub keyid : Str
  pub name : Name
  pub dk : Bytes
  pub peer : PeerId
  pub peer_id : Str

-- `.context("invalid address")`
abbrev or_invalid : Result CoreError Name → Result Str Name
or_invalid (ok n) = ok n
or_invalid (err e) = err (text "invalid address")

-- `doctor.listen_addrs` as `relay` prints them for the configuration of other nodes.
unfoldable pub relay_lines : DoctorInfo → List Str
relay_lines info =
    map (λ a. a ++ (text "/p2p/" ++ info.peer_id)) (filter_dialable info.listen_addrs)

-- The configuration of `relay`.
module _ {S : Type 0} (sw : Swarm S) where
  unfoldable pub relay_config : ℕ → Bool → Result Str NetConfig
  relay_config listen_port enable_mdns = do
    tcp ← sw.parse_multiaddr (text "/ip4/0.0.0.0/tcp/" ++ show_usize listen_port)
    quic ←
        sw.parse_multiaddr (text "/ip4/0.0.0.0/udp/" ++ (show_usize listen_port ++ text "/quic-v1"))
    ok (record {
      bootstrap = [];
      listen = tcp ∷ quic ∷ [];
      reserve_relays = [];
      relay_server = true;
      enable_mdns = enable_mdns;
    })

module _ {S : Type 0} (sw : Swarm S) (b : Builder S) where
  -- `net::spawn` up to the start of its task: the swarm, and the peer that the handle tells.
  unfoldable pub spawn : Bytes → NetConfig → Result Str (S × PeerId)
  spawn secret cfg = do
    key ← keypair_from_secret b secret
    built ← build_swarm b secret cfg
    s ← prepare sw cfg built
    ok (s, b.to_peer_id key)

  unfoldable pub publish_start : Crypto → Identity → NetConfig → ℕ → Str → Result Str (Publishing S)
  unfolding spawn
  publish_start c identity net_cfg keyid_len vanity = do
    handle ← spawn (secret_bytes identity) net_cfg
    name ← or_deriving (name c identity vanity keyid_len)
    ok (record {
      swarm = handle.0;
      keyid = keyid_from_pubkey c (public_bytes c identity) keyid_len;
      name = name;
      dk = dht_key c (keyid_from_pubkey c (public_bytes c identity) keyid_len);
      peer = handle.1;
      peer_id = sw.peer_to_string handle.1;
    })

  unfoldable pub connect_start : Bytes → NetConfig → Str → Result Str (Name × S)
  unfolding spawn
  connect_start secret net_cfg name_str = do
    name ← or_invalid (parse name_str)
    handle ← spawn secret net_cfg
    ok (name, handle.0)

  abbrev established :
      Crypto
      → ℕ
      → List Attempt
      → Result Str (Name × S)
      → Option (Result Str PeerId) × List Multiaddr
  established c start attempts (err e) = (some (err e), [])
  established c start attempts (ok (name, s)) = establish sw c name start attempts

  -- `connect` up to the peer that it opens tunnels to, and what it dials.
  unfoldable pub connect_peer :
      Crypto
      → Bytes
      → NetConfig
      → Str
      → ℕ
      → List Attempt
      → Option (Result Str PeerId) × List Multiaddr
  unfolding connect_start
  connect_peer c secret net_cfg name_str start attempts =
      established c start attempts (connect_start secret net_cfg name_str)
