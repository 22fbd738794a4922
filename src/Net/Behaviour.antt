-- ===== src/Net/Behaviour.antt =====
-- crates/net/src/behaviour.rs, and how `spawn` of crates/net/src/node.rs builds the swarm on it. A
-- protocol of libp2p is what the source sets of it; the rest are libp2p's defaults. A panic is an
-- error with the panic's text, as nothing catches it.
use dotminecraft.Prelude.{
  ℕ, Bool, true, false, Option, none, some, ◌++◌, Result, ok, err, ◌>>=◌, ◌>>◌,
}
use dotminecraft.Core.Text.{Str, Bytes, text}
use dotminecraft.Net.Swarm.{PeerId}
use dotminecraft.Net.Setup.{NetConfig}

abbrev pub identify_proto : Str
identify_proto = text "/mc-tunnel/id/1.0.0"

-- The version is that of the workspace's Cargo.toml.
abbrev pub agent_version : Str
agent_version = text "mc-tunnel/" ++ text "0.1.0"

-- `kad::StoreInserts` and `kad::Mode`
pub data StoreInserts : Type 0 where
  unfiltered : StoreInserts
  filter_both : StoreInserts

pub data KadMode : Type 0 where
  client : KadMode
  server : KadMode

pub record Kad : Type 0 where
  pub peer_id : PeerId
  pub record_filtering : StoreInserts
  -- `none` is the automatic mode
  pub mode : Option KadMode

pub record Identify : Type 0 where
  pub protocol_version : Str
  pub agent_version : Str
  pub public_key : Bytes

-- A toggled protocol that is on has the peer that it was made for; ping has its interval in seconds.
-- The relay client is handed in by the builder, and the streams have nothing that is set.
pub record Behaviour : Type 0 where
  pub kad : Kad
  pub identify : Identify
  pub ping : ℕ
  pub relay_server : Option PeerId
  pub dcutr : PeerId
  pub autonat : PeerId
  pub mdns : Option PeerId

-- `kad::Behaviour::with_config` of a default configuration, and its setters.
abbrev kad_default : PeerId → Kad
kad_default peer_id = record { peer_id = peer_id; record_filtering = unfiltered; mode = none }

abbrev set_record_filtering : StoreInserts → Kad → Kad
set_record_filtering f k = record k { record_filtering = f }

abbrev set_mode : Option KadMode → Kad → Kad
set_mode m k = record k { mode = m }

-- `Toggle::from(enable.then(..))`
abbrev pub toggle : Bool → PeerId → Option PeerId
toggle false peer_id = none
toggle true peer_id = some peer_id

-- `mdns::tokio::Behaviour::new(..).expect(..)`, which runs only if mDNS is enabled.
unfoldable pub toggle_mdns : Bool → Bool → PeerId → Result Str (Option PeerId)
toggle_mdns false starts peer_id = ok none
toggle_mdns true true peer_id = ok (some peer_id)
toggle_mdns true false peer_id =
    err (text "mdns init only fails if no network interface is available")

unfoldable pub new : PeerId → Bytes → Bool → Bool → Bool → Result Str Behaviour
unfolding toggle_mdns
new peer_id pubkey enable_relay_server enable_mdns mdns_starts = do
  mdns ← toggle_mdns enable_mdns mdns_starts peer_id
  ok (record {
    kad = set_mode (some server) (set_record_filtering filter_both (kad_default peer_id));
    identify = record {
      protocol_version = identify_proto;
      agent_version = agent_version;
      public_key = pubkey;
    };
    ping = 2;
    relay_server = toggle enable_relay_server peer_id;
    dcutr = peer_id;
    autonat = peer_id;
    mdns = mdns;
  })

-- What the builder of libp2p does: the public key of a secret's keypair, the peer of a public key,
-- whether each transport and mDNS can be started, and the swarm of a key over a behaviour and an idle
-- timeout.
pub record Builder (S : Type 0) : Type 0 where
  pub ed25519_from_bytes : Bytes → Result Str Bytes
  pub to_peer_id : Bytes → PeerId
  pub with_tcp : Result Str (Unit {0})
  pub with_dns : Result Str (Unit {0})
  pub with_relay_client : Result Str (Unit {0})
  pub mdns_starts : Bool
  pub build : Bytes → Behaviour → ℕ → S

module _ {S : Type 0} (b : Builder S) where
  -- `keypair_from_secret`
  unfoldable pub keypair_from_secret : Bytes → Result Str Bytes
  keypair_from_secret secret = elim (b.ed25519_from_bytes secret) [
    | ok key ↦ ok key
    | err e ↦ err (text "constructing libp2p ed25519 keypair from secret bytes")
  ]

  -- The part of `spawn` before the set-up; connections time out after 60 idle seconds.
  unfoldable pub build_swarm : Bytes → NetConfig → Result Str S
  unfolding keypair_from_secret new
  build_swarm secret cfg = do
    key ← keypair_from_secret secret
    b.with_tcp
    b.with_dns
    b.with_relay_client
    behaviour ← new (b.to_peer_id key) key cfg.relay_server cfg.enable_mdns b.mdns_starts
    ok (b.build key behaviour 60)
