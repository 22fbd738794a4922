-- ===== src/Tests/SetUps.antt =====
-- Tests of the set-up of crates/net/src/node.rs and of crates/net/src/behaviour.rs.
use dotminecraft.Prelude.{
  if◌then◌else◌, Bool, ◌≡◌, refl, List, [], ◌∷◌, ◌++◌, true, false, none, ok, err,
}
use dotminecraft.Core.Text.{text}
use dotminecraft.Core.Identity.{secret_bytes}
use dotminecraft.Net.Swarm.{Swarm, Multiaddr, p2p, p2p_circuit, other}
use dotminecraft.Net.Setup.{
  NetConfig, prepare, start_listening, listen_one, listen_all, add_bootstrap, add_peers,
  reserve_relays, peer_id_from_multiaddr,
}
use dotminecraft.Net.Setup.Calls.{calls, listening, perform_all, prepare-calls}
use dotminecraft.Net.Behaviour.{build_swarm, keypair_from_secret, new, toggle_mdns}
use dotminecraft.Cli.Config.{fill}
use dotminecraft.Cli.Main.{publish, publishes}
use dotminecraft.Cli.Main.Duties.{Duty}
use dotminecraft.Cli.Main.Nodes.{BuiltOf, run_command-BuiltOf, wants_mdns}
use dotminecraft.Tests.Toy.{toy}
use dotminecraft.Tests.ToyNet.{toy_net, builder}
use dotminecraft.Tests.Records.{owner}
use dotminecraft.Tests.Keystores.{system, stored}
use dotminecraft.Tests.Commands.{table, flags, call, ran}

-- A swarm that keeps the calls that were made on it. It has no way to listen through a circuit.
abbrev circuit : Multiaddr → Bool
circuit [] = false
circuit (p2p_circuit ∷ addr) = true
circuit (p2p id ∷ addr) = circuit addr
circuit (other t ∷ addr) = circuit addr

logging_net : Swarm (List Multiaddr)
logging_net = record {
  put_record = λ r s. (s, ok 1);
  get_record = λ k s. (s, 1);
  add_address = λ p a s. s ++ (p2p p ∷ a) ∷ [];
  bootstrap = λ s. s ++ (other (text "bootstrap") ∷ []) ∷ [];
  dial = λ a s. (s, ok tt);
  listen_on = λ a s. (s ++ a ∷ [], if circuit a then err (text "no circuit") else ok tt);
  store_get = λ k s. none;
  store_put = λ r s. s;
  listeners = λ s. [];
  connected_peers = λ s. 0;
  nat_status = λ s. [];
  local_peer_id = λ s. [];
  addr_to_string = λ a. [];
  peer_to_string = λ p. p;
  parse_multiaddr = λ t. ok (other t ∷ []);
  peer_id_from_ed25519 = λ k. ok k;
}

abbrev named : Multiaddr
named = other (text "/ip4/9.9.9.9/tcp/1") ∷ p2p (7 ∷ []) ∷ []

abbrev unnamed : Multiaddr
unnamed = other (text "/ip4/8.8.8.8/tcp/1") ∷ []

abbrev tcp : Multiaddr
tcp = other (text "/ip4/0.0.0.0/tcp/0") ∷ []

abbrev quic : Multiaddr
quic = other (text "/ip4/0.0.0.0/udp/0/quic-v1") ∷ []

abbrev joining : NetConfig
joining = record {
  bootstrap = unnamed ∷ named ∷ [];
  listen = [];
  reserve_relays = named ∷ [];
  relay_server = false;
  enable_mdns = true;
}

-- The node joins, although its relay cannot be listened through.
prepare_test :
    prepare logging_net joining []
    ≡ ok (
        tcp
        ∷ quic
        ∷ (p2p (7 ∷ []) ∷ named)
        ∷ (other (text "bootstrap") ∷ [])
        ∷ (p2p (7 ∷ []) ∷ named)
        ∷ (named ++ p2p_circuit ∷ [])
        ∷ [])
unfolding logging_net prepare start_listening listen_one listen_all add_bootstrap add_peers
    reserve_relays peer_id_from_multiaddr
prepare_test = refl

prepare-calls_example :
    prepare logging_net joining []
    ≡ perform_all logging_net (calls (listening tcp quic []) joining) []
unfolding logging_net
prepare-calls_example = prepare-calls logging_net tcp quic refl refl joining []

run_command-BuiltOf_example :
    Duty toy_net (fill table) (publish flags) call.net_cfg
    × BuiltOf builder (secret_bytes owner) false (wants_mdns (fill table) (publish flags)) []
unfolding builder build_swarm keypair_from_secret new toggle_mdns
run_command-BuiltOf_example =
    run_command-BuiltOf toy toy_net builder system (fill table) (publish flags) stored
      (publishes call) (secret_bytes owner) call.net_cfg [] ran refl refl
