-- ===== src/Net/Setup.antt =====
-- How a node is set up: `NetConfig`, `start_listening`, `add_bootstrap` and `reserve_relays` of
-- crates/net/src/node.rs.
pub mod Calls
use dotminecraft.Prelude.{
  ℕ, ◌+◌, ltb, Bool, true, false, Option, none, some, List, [], ◌∷◌, ◌++◌, is_empty, if◌then◌else◌,
  Result, ok, ◌>>=◌,
}
use dotminecraft.Core.Text.{Str, text}
use dotminecraft.Net.Swarm.{Swarm, PeerId, Multiaddr, p2p, p2p_circuit, other}

pub record NetConfig : Type 0 where
  pub bootstrap : List Multiaddr
  pub listen : List Multiaddr
  pub reserve_relays : List Multiaddr
  pub relay_server : Bool
  pub enable_mdns : Bool

abbrev pub default_config : NetConfig
default_config = record {
  bootstrap = [];
  listen = [];
  reserve_relays = [];
  relay_server = false;
  enable_mdns = true;
}

-- The first `/p2p/<id>` component.
unfoldable pub peer_id_from_multiaddr : Multiaddr → Option PeerId
peer_id_from_multiaddr [] = none
peer_id_from_multiaddr (p2p id ∷ addr) = some id
peer_id_from_multiaddr (p2p_circuit ∷ addr) = peer_id_from_multiaddr addr
peer_id_from_multiaddr (other t ∷ addr) = peer_id_from_multiaddr addr

module _ {S : Type 0} (sw : Swarm S) where
  -- `listen_on(addr)?`
  unfoldable pub listen_one : Multiaddr → S → Result Str S
  listen_one addr s = let (s', r) = sw.listen_on addr s in r >>= λ _. ok s'

  unfoldable pub listen_all : List Multiaddr → S → Result Str S
  listen_all [] s = ok s
  listen_all (addr ∷ addrs) s = listen_one addr s >>= λ s'. listen_all addrs s'

  unfoldable pub start_listening : List Multiaddr → S → Result Str S
  unfolding listen_one listen_all
  start_listening listen s =
      if is_empty listen
      then (do
        tcp ← sw.parse_multiaddr (text "/ip4/0.0.0.0/tcp/0")
        s' ← listen_one tcp s
        quic ← sw.parse_multiaddr (text "/ip4/0.0.0.0/udp/0/quic-v1")
        listen_one quic s')
      else listen_all listen s

  -- The loop of `add_bootstrap`; the number counts what was added.
  unfoldable pub add_peers : List Multiaddr → S → ℕ → S × ℕ
  add_peers [] s added = (s, added)
  add_peers (addr ∷ addrs) s added = elim (peer_id_from_multiaddr addr) [
    | some peer ↦ add_peers addrs (sw.add_address peer addr s) (added + 1)
    | none ↦ add_peers addrs s added
  ]

  unfoldable pub add_bootstrap : List Multiaddr → S → S
  unfolding add_peers
  add_bootstrap addrs s =
      let (s', added) = add_peers addrs s 0 in if ltb 0 added then sw.bootstrap s' else s'

  -- `kad.add_address` for a relay whose address names its peer.
  abbrev know : Option PeerId → Multiaddr → S → S
  know none relay s = s
  know (some peer) relay s = sw.add_address peer relay s

  unfoldable pub reserve_relays : List Multiaddr → S → S
  reserve_relays [] s = s
  reserve_relays (relay ∷ relays) s =
      let s' = know (peer_id_from_multiaddr relay) relay s in
      reserve_relays relays (sw.listen_on (relay ++ p2p_circuit ∷ []) s').0

  -- The part of `spawn` after the swarm is built.
  unfoldable pub prepare : NetConfig → S → Result Str S
  unfolding start_listening add_bootstrap reserve_relays
  prepare cfg s = do
    s' ← start_listening cfg.listen s
    ok (reserve_relays cfg.reserve_relays (add_bootstrap cfg.bootstrap s'))
