-- ===== src/Cli/Main/Nodes.antt =====
-- Which protocols the node of each command of crates/cli/src/main.rs runs, by crates/net.
use dotminecraft.Prelude.{
  inl, inr, ok-bound, ◌≡◌, refl, sym, Bool, true, false, Option, some, ok, Result-cases,
  ok-injective, subst,
}
use dotminecraft.Core.Text.{Bytes}
use dotminecraft.Core.Crypto.{Crypto}
use dotminecraft.Net.Swarm.{Swarm, PeerId}
use dotminecraft.Net.Setup.{NetConfig}
use dotminecraft.Net.Behaviour.{
  Behaviour, filter_both, server, toggle, toggle_mdns, new, Builder, keypair_from_secret,
  build_swarm,
}
use dotminecraft.Cli.Config.{Config}
use dotminecraft.Cli.Keystore.{Profile, System}
use dotminecraft.Cli.Main.{
  CliCommand, init, name, publish, connect, doctor, relay, forget, agent, Started, run_command,
}
use dotminecraft.Cli.Main.Duties.{node_of, Duty, run_command-Duty}

-- A node of this peer, which stores only the records that it is told to, answers queries, and has
-- these toggles.
pub record Runs (peer : PeerId) (relays lan : Bool) (behaviour : Behaviour) : Type 0 where
  pub own : behaviour.kad.peer_id ≡ peer
  pub filters : behaviour.kad.record_filtering ≡ filter_both
  pub serves : behaviour.kad.mode ≡ some server
  pub relay_server : behaviour.relay_server ≡ toggle relays peer
  pub mdns : behaviour.mdns ≡ toggle lan peer

toggle_mdns-ok :
    (on starts : Bool) (peer : PeerId) (r : Option PeerId)
    → toggle_mdns on starts peer ≡ ok r
    → r ≡ toggle on peer
unfolding toggle_mdns
toggle_mdns-ok false starts peer r h = sym (ok-injective h)
toggle_mdns-ok true true peer r h = sym (ok-injective h)
toggle_mdns-ok true false peer r h = cc

new-Runs :
    (peer : PeerId) (key : Bytes) (relays mdns starts : Bool) (behaviour : Behaviour)
    → new peer key relays mdns starts ≡ ok behaviour
    → Runs peer relays mdns behaviour
unfolding new
new-Runs peer key relays mdns starts behaviour h =
    elim (Result-cases (toggle_mdns mdns starts peer)) [
      | inr (x, e) ↦ cc (rw (e, new) at h)
      | inl (r, e) ↦ subst (Runs peer relays mdns) (ok-injective (rw (e, new) at h)) (record {
        own = refl;
        filters = refl;
        serves = refl;
        relay_server = refl;
        mdns = toggle_mdns-ok mdns starts peer r e;
      })
    ]

module _ {S : Type 0} (b : Builder S) where
  -- The swarm of a node is built once, over the behaviour of the secret's peer.
  abbrev pub BuiltOf : Bytes → (relays mdns : Bool) → S → Type 0
  BuiltOf secret relays mdns s =
      (key : Bytes) × (behaviour : Behaviour) × (b.ed25519_from_bytes secret ≡ ok key)
      × (s ≡ b.build key behaviour 60)
      × Runs (b.to_peer_id key) relays mdns behaviour

  build_swarm-BuiltOf :
      (secret : Bytes) (net : NetConfig) (s : S)
      → build_swarm b secret net ≡ ok s
      → BuiltOf secret net.relay_server net.enable_mdns s
  unfolding build_swarm keypair_from_secret
  build_swarm-BuiltOf secret net s h = elim (Result-cases (b.ed25519_from_bytes secret)) [
    | inr (x, e) ↦ cc (rw (e, build_swarm, keypair_from_secret) at h)
    | inl (key, e) ↦
        let made = rw (e, build_swarm, keypair_from_secret) at h in
        let (t, dns, tcp) = ok-bound b.with_tcp made in
        let (u, client, q) = ok-bound b.with_dns dns in
        let (v, last, w) = ok-bound b.with_relay_client client in
        let (behaviour, same, n) = ok-bound (new _ key _ _ _) last in
        (
          key,
          behaviour,
          e,
          sym (ok-injective same),
          new-Runs (b.to_peer_id key) key net.relay_server net.enable_mdns b.mdns_starts behaviour
              n,
        )
  ]

-- `relay` alone serves as a relay; its mDNS is set by its flag, that of all others by the
-- configuration.
abbrev pub serves_relay : CliCommand → Bool
serves_relay (relay args) = true
serves_relay other = false

abbrev pub wants_mdns : Config → CliCommand → Bool
wants_mdns cfg (relay args) = args.mdns
wants_mdns cfg other = cfg.network.mdns

Duty-toggles :
    {S : Type 0} (sw : Swarm S) (cfg : Config) (cmd : CliCommand) (net : NetConfig)
    → Duty sw cfg cmd net
    → (net.relay_server ≡ serves_relay cmd) × (net.enable_mdns ≡ wants_mdns cfg cmd)
Duty-toggles sw cfg (init args generated found) net d = absurd d
Duty-toggles sw cfg (name args) net d = absurd d
Duty-toggles sw cfg (publish args) net d = (d.relay_server, d.enable_mdns)
Duty-toggles sw cfg (connect args) net d = (d.relay_server, d.enable_mdns)
Duty-toggles sw cfg doctor net d = (d.relay_server, d.enable_mdns)
Duty-toggles sw cfg (relay args) net d = (d.0, d.3)
Duty-toggles sw cfg forget net d = absurd d
Duty-toggles sw cfg (agent args) net d = (d.relay_server, d.enable_mdns)

module _ (c : Crypto) {S : Type 0} (sw : Swarm S) (b : Builder S) (sys : System) where
  -- Each command that starts a node starts one of its part: `relay` alone is without bootstrap nodes;
  -- all others dial the configured bootstrap nodes, and of these `publish` alone reserves slots, on
  -- the configured relays or else on the bootstrap nodes. The node's swarm is built over the peer of
  -- the secret's key, with a Kademlia that filters all inbound records and answers queries. It serves
  -- as a relay exactly for `relay`, and has mDNS exactly if the flag of `relay`, or for the others the
  -- configuration, says so.
  pub run_command-BuiltOf :
      (cfg : Config) (cmd : CliCommand) (p : Profile) (st : Started) (secret : Bytes)
      (net : NetConfig) (s : S)
      → (run_command c sw sys (ok cfg) cmd p).1 ≡ ok st
      → node_of st ≡ some net
      → build_swarm b secret net ≡ ok s
      → Duty sw cfg cmd net × BuiltOf b secret (serves_relay cmd) (wants_mdns cfg cmd) s
  run_command-BuiltOf cfg cmd p st secret net s h k built =
      let duty = run_command-Duty c sw sys cfg cmd p st net h k in
      let (on, lan) = Duty-toggles sw cfg cmd net duty in
      (duty, rw (sym on, sym lan) (build_swarm-BuiltOf b secret net s built))
