-- ===== src/Cli/Main/Duties.antt =====
-- What part in the network each command of crates/cli/src/main.rs takes.
use dotminecraft.Prelude.{
  ℕ, ◌≡◌, refl, sym, ap, ◌∙◌, inl, inr, Bool, true, false, Option, none, some, List, [], ◌++◌,
  is_empty, Bool-cases, Result, ok, err, Result-cases, ok-injective, if◌then◌else◌, subst,
  some-injective,
}
use dotminecraft.Core.Text.{Str, Bytes, text}
use dotminecraft.Core.Crypto.{Crypto}
use dotminecraft.Net.Swarm.{Swarm, Multiaddr}
use dotminecraft.Net.Setup.{NetConfig}
use dotminecraft.Cli.Config.{Config}
use dotminecraft.Cli.Tunnel.{parse_addrs, net_config}
use dotminecraft.Cli.Tunnel.Sessions.{relay_config}
use dotminecraft.Cli.Keystore.{Profile, System, show_usize}
use dotminecraft.Cli.Keystore as Keystore
use dotminecraft.Cli.Commands.{ConnectArgs, ConnectCall, net_opts, cmd_connect, cmd_node, cmd_relay}
use dotminecraft.Cli.Commands.Roles.{cmd_publish-ok}
use dotminecraft.Cli.Main.{
  CliCommand, init, name, publish, connect, doctor, relay, forget, agent, Started, prints,
  publishes, connects, diagnoses, relays, removed, serves, and_then, run_command,
}

-- The configuration of the node that a command goes on with, if it starts one.
abbrev pub node_of : Started → Option NetConfig
node_of (prints nm) = none
node_of (publishes call) = some call.net_cfg
node_of (connects call) = some call.net_cfg
node_of (diagnoses (secret, net)) = some net
node_of (relays (secret, net)) = some net
node_of (removed l) = none
node_of (serves (secret, net) port) = some net

module _ {S : Type 0} (sw : Swarm S) where
  -- A node that dials the configured bootstrap nodes, listens where it likes, serves no relay, and
  -- reserves a slot on these relays.
  pub record IsClient (cfg : Config) (reserved : Result Str (List Multiaddr)) (net : NetConfig)
      : Type 0 where
    pub bootstrap : parse_addrs sw cfg.network.bootstrap ≡ ok net.bootstrap
    pub listen : net.listen ≡ []
    pub reserve_relays : reserved ≡ ok net.reserve_relays
    pub relay_server : net.relay_server ≡ false
    pub enable_mdns : net.enable_mdns ≡ cfg.network.mdns

  -- `relays`, or `bootstrap` where that is empty.
  abbrev pub slots : Config → Result Str (List Multiaddr)
  slots cfg =
      parse_addrs sw
        (if is_empty cfg.network.relays then cfg.network.bootstrap else cfg.network.relays)

  -- The part of each command: `relay` alone serves as a relay, and `publish` alone reserves slots.
  abbrev pub Duty : Config → CliCommand → NetConfig → Type 0
  Duty cfg (init args generated found) net = ⊥
  Duty cfg (name args) net = ⊥
  Duty cfg (publish args) net = IsClient cfg (slots cfg) net
  Duty cfg (connect args) net = IsClient cfg (ok []) net
  Duty cfg doctor net = IsClient cfg (ok []) net
  Duty cfg (relay args) net =
      (net.relay_server ≡ true)
      × (net.bootstrap ≡ [])
      × (net.reserve_relays ≡ [])
      × (net.enable_mdns ≡ args.mdns)
  Duty cfg forget net = ⊥
  Duty cfg (agent args) net = IsClient cfg (ok []) net

  made-IsClient :
      (cfg : Config) (reserved : Result Str (List Multiaddr)) (b rs : List Multiaddr)
      → parse_addrs sw cfg.network.bootstrap ≡ ok b
      → reserved ≡ ok rs
      → IsClient cfg reserved (record {
        bootstrap = b;
        listen = [];
        reserve_relays = rs;
        relay_server = false;
        enable_mdns = cfg.network.mdns;
      })
  made-IsClient cfg reserved b rs e q = record {
    bootstrap = e;
    listen = refl;
    reserve_relays = q;
    relay_server = refl;
    enable_mdns = refl;
  }

  net_config-IsClient :
      (cfg : Config) (net : NetConfig)
      → net_config sw (net_opts cfg false false) ≡ ok net
      → IsClient cfg (ok []) net
  unfolding net_config net_opts
  net_config-IsClient cfg net h = elim (Result-cases (parse_addrs sw cfg.network.bootstrap)) [
    | inr (x, e) ↦ cc (rw (e, net_config) at h)
    | inl (b, e) ↦
        let g = ok-injective (rw (e, net_config) at h) in
        subst (IsClient cfg (ok [])) g (made-IsClient cfg (ok []) b [] e refl)
  ]

  net_config-slots :
      (cfg : Config) (net : NetConfig)
      → net_config sw (net_opts cfg true false) ≡ ok net
      → IsClient cfg (slots cfg) net
  unfolding net_config net_opts
  net_config-slots cfg net h = elim (Result-cases (parse_addrs sw cfg.network.bootstrap)) [
    | inr (x, e) ↦ cc (rw (e, net_config) at h)
    | inl (b, e) ↦ elim (Bool-cases (is_empty cfg.network.relays)) [
      | inl without ↦
          let g = ok-injective (rw (e, net_config, without) at h) in
          subst (IsClient cfg (slots cfg)) g
            (made-IsClient cfg (slots cfg) b b e (rw (without, e) refl))
      | inr given ↦ elim (Result-cases (parse_addrs sw cfg.network.relays)) [
        | inr (x, q) ↦ cc (rw (e, net_config, given, q) at h)
        | inl (rs, q) ↦
            let g = ok-injective (rw (e, net_config, given, q) at h) in
            subst (IsClient cfg (slots cfg)) g
              (made-IsClient cfg (slots cfg) b rs e (rw (given, q) refl))
      ]
    ]
  ]

  relay_config-ok :
      (port : ℕ) (mdns : Bool) (net : NetConfig)
      → relay_config sw port mdns ≡ ok net
      → (net.relay_server ≡ true)
        × (net.bootstrap ≡ [])
        × (net.reserve_relays ≡ [])
        × (net.enable_mdns ≡ mdns)
  unfolding relay_config
  relay_config-ok port mdns net h =
      elim (Result-cases (sw.parse_multiaddr (text "/ip4/0.0.0.0/tcp/" ++ show_usize port))) [
        | inr (x, e) ↦ cc (rw (e, relay_config) at h)
        | inl (tcp, e) ↦
            elim (Result-cases (
              sw.parse_multiaddr
                (text "/ip4/0.0.0.0/udp/" ++ (show_usize port ++ text "/quic-v1")))) [
                  | inr (x, q) ↦ cc (rw (e, relay_config, q) at h)
                  | inl (quic, q) ↦
                      let g = ok-injective (rw (e, relay_config, q) at h) in
                      (
                        sym (ap (λ n. n.relay_server) g),
                        sym (ap (λ n. n.bootstrap) g),
                        sym (ap (λ n. n.reserve_relays) g),
                        sym (ap (λ n. n.enable_mdns) g),
                      )
                ]
      ]

-- A command that goes on has computed what it goes on with.
and_then-node :
    {A : Type 0} (f : A → Started) (g : A → NetConfig) (r : Result Str A) (st : Started)
    (net : NetConfig)
    → ((a : A) → node_of (f a) ≡ some (g a))
    → and_then f r ≡ ok st
    → node_of st ≡ some net
    → (a : A) × (r ≡ ok a) × (g a ≡ net)
and_then-node f g (err e) st net node h k = cc
and_then-node f g (ok a) st net node h k =
    (a, refl, some-injective (g a) net (sym (node a) ∙ ap node_of (ok-injective h) ∙ k))

and_then-none :
    {A : Type 0} (f : A → Started) (r : Result Str A) (st : Started) (net : NetConfig)
    → ((a : A) → node_of (f a) ≡ none)
    → and_then f r ≡ ok st
    → node_of st ≡ some net
    → ⊥
and_then-none f (err e) st net node h k = cc
and_then-none f (ok a) st net node h k = cc (node a, ap node_of (ok-injective h), k)

module _ {S : Type 0} (sw : Swarm S) (sys : System) (p : Profile) where
  cmd_connect-ok :
      (cfg : Config) (args : ConnectArgs) (call : ConnectCall)
      → cmd_connect sw sys p (ok cfg) args ≡ ok call
      → net_config sw (net_opts cfg false false) ≡ ok call.net_cfg
  unfolding cmd_connect
  cmd_connect-ok cfg args call h = elim (Result-cases (Keystore.load sys p)) [
    | inr (x, e) ↦ cc (rw (e, cmd_connect) at h)
    | inl (id, e) ↦ elim (Result-cases (net_config sw (net_opts cfg false false))) [
      | inr (x, q) ↦ cc (rw (e, cmd_connect, q) at h)
      | inl (net, q) ↦ q ∙ ap (λ x. ok x.net_cfg) (ok-injective (rw (e, cmd_connect, q) at h))
    ]
  ]

  cmd_node-ok :
      (cfg : Config) (node : Bytes × NetConfig)
      → cmd_node sw sys p (ok cfg) ≡ ok node
      → net_config sw (net_opts cfg false false) ≡ ok node.1
  unfolding cmd_node
  cmd_node-ok cfg node h = elim (Result-cases (Keystore.load sys p)) [
    | inr (x, e) ↦ cc (rw (e, cmd_node) at h)
    | inl (id, e) ↦ elim (Result-cases (net_config sw (net_opts cfg false false))) [
      | inr (x, q) ↦ cc (rw (e, cmd_node, q) at h)
      | inl (net, q) ↦ q ∙ ap (λ x. ok x.1) (ok-injective (rw (e, cmd_node, q) at h))
    ]
  ]

  cmd_relay-ok :
      (port : ℕ) (mdns : Bool) (node : Bytes × NetConfig)
      → cmd_relay sw sys p port mdns ≡ ok node
      → relay_config sw port mdns ≡ ok node.1
  unfolding cmd_relay
  cmd_relay-ok port mdns node h = elim (Result-cases (Keystore.load sys p)) [
    | inr (x, e) ↦ cc (rw (e, cmd_relay) at h)
    | inl (id, e) ↦ elim (Result-cases (relay_config sw port mdns)) [
      | inr (x, q) ↦ cc (rw (e, cmd_relay, q) at h)
      | inl (net, q) ↦ q ∙ ap (λ x. ok x.1) (ok-injective (rw (e, cmd_relay, q) at h))
    ]
  ]

module _ (c : Crypto) {S : Type 0} (sw : Swarm S) (sys : System) where
  -- Each command that starts a node starts one of its part: `relay` alone serves as a relay, without
  -- bootstrap nodes; all others dial the configured bootstrap nodes, and of these `publish` alone
  -- reserves slots, on the configured relays or else on the bootstrap nodes.
  pub run_command-Duty :
      (cfg : Config) (cmd : CliCommand) (p : Profile) (st : Started) (net : NetConfig)
      → (run_command c sw sys (ok cfg) cmd p).1 ≡ ok st
      → node_of st ≡ some net
      → Duty sw cfg cmd net
  unfolding run_command
  run_command-Duty cfg (init args generated found) p st net h k =
      and_then-none prints _ st net (λ a. refl) h k
  run_command-Duty cfg (name args) p st net h k = and_then-none prints _ st net (λ a. refl) h k
  run_command-Duty cfg (publish args) p st net h k =
      let (call, e, same) = and_then-node publishes (λ x. x.net_cfg) _ st net (λ a. refl) h k in
      subst (Duty sw cfg (publish args)) same
        (net_config-slots sw cfg call.net_cfg ((cmd_publish-ok sw sys p cfg args call e).net_cfg))
  run_command-Duty cfg (connect args) p st net h k =
      let (call, e, same) = and_then-node connects (λ x. x.net_cfg) _ st net (λ a. refl) h k in
      subst (Duty sw cfg (connect args)) same
        (net_config-IsClient sw cfg call.net_cfg (cmd_connect-ok sw sys p cfg args call e))
  run_command-Duty cfg doctor p st net h k =
      let (node, e, same) = and_then-node diagnoses (λ x. x.1) _ st net (λ a. refl) h k in
      subst (Duty sw cfg doctor) same
        (net_config-IsClient sw cfg node.1 (cmd_node-ok sw sys p cfg node e))
  run_command-Duty cfg (relay args) p st net h k =
      let (node, e, same) = and_then-node relays (λ x. x.1) _ st net (λ a. refl) h k in
      subst (Duty sw cfg (relay args)) same (
        relay_config-ok sw args.port args.mdns node.1
          (cmd_relay-ok sw sys p args.port args.mdns node e))
  run_command-Duty cfg forget p st net h k = and_then-none removed _ st net (λ a. refl) h k
  run_command-Duty cfg (agent args) p st net h k =
      let (node, e, same) =
        and_then-node (λ n. serves n args.control_port) (λ x. x.1) _ st net (λ a. refl) h k in
      subst (Duty sw cfg (agent args)) same
        (net_config-IsClient sw cfg node.1 (cmd_node-ok sw sys p cfg node e))
