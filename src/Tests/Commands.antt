-- ===== src/Tests/Commands.antt =====
-- Tests of crates/cli/src/config.rs and the commands of crates/cli/src/main.rs.
use dotminecraft.Prelude.{
  ◌++◌, ◌≤◌, ◌≡◌, refl, true, false, replicate, length, List, none, some, [], ◌∷◌, ok, err, Result,
}
use dotminecraft.Core.Text.{Str, text}
use dotminecraft.Tests.Proxies.{toy_floats}
use dotminecraft.Proxy.Tunnels.{start, begins}
use dotminecraft.Cli.Config.{Table, contents, not_found, fill, load, defaults}
use dotminecraft.Cli.Commands.{PublishArgs, PublishCall, net_opts, cmd_publish}
use dotminecraft.Cli.Commands.Roles.{cmd_publish-caps}
use dotminecraft.Net.Setup.{default_config}
use dotminecraft.Core.Identity.{secret_bytes}
use dotminecraft.Core.Name.{Name, is_base32_lower}
use dotminecraft.Core.Record.{dht_key}
use dotminecraft.Cli.Keystore.{Profile, cmd_init}
use dotminecraft.Cli.Tunnel.Sessions.{Publishing, publish_start}
use dotminecraft.Cli.Commands.Named.{publish-init}
use dotminecraft.Cli.Main.{CliCommand, init, name, publish, publishes, run_command, run_commands}
use dotminecraft.Tests.Toy.{toy, toy-IsSound}
use dotminecraft.Tests.Grinds.{grinding, prefix, done, done-GrindReach}
use dotminecraft.Cli.Main.{InitArgs}
use dotminecraft.Cli.Grind.{obtain}
use dotminecraft.Cli.Main.Vanity.{init-vanity}
use dotminecraft.Tests.Sessions.{meeting}
use dotminecraft.Tests.ToyNet.{Store, toy_net, builder}
use dotminecraft.Tests.Records.{owner}
use dotminecraft.Tests.Tunnels.{tunnelling}
use dotminecraft.Tests.Keystores.{storing, system, stored}

commanding : Unit {0}
unfolding storing tunnelling fill load net_opts cmd_publish run_command run_commands
commanding = tt

-- A file with one section, which sets one cap.
abbrev pub table : Table
table = record {
  network = none;
  publish =
      some (record { target = none; vanity = none; max_conns = some 8; max_conn_rate = some 4 });
  connect = none;
}

abbrev from_str : Str → Result Str Table
from_str [] = err (text "empty")
from_str (x ∷ s) = ok table

abbrev pub flags : PublishArgs
flags = record { target = none; vanity = some (text "home"); max_conns = some 3 }

abbrev pub call : PublishCall
call = record {
  identity = owner;
  net_cfg = default_config;
  keyid_len = 26;
  target = text "127.0.0.1:25565";
  vanity = text "home";
  max_conns = 3;
  max_conn_rate = 4;
}

config_test : load from_str not_found ≡ ok defaults
unfolding commanding
config_test = refl

called : cmd_publish toy_net system stored (load from_str (contents (text "x"))) flags ≡ ok call
unfolding commanding
called = refl

cmd_publish-caps_example : (start toy_floats 4 9).open_tunnels ≤ 3
cmd_publish-caps_example =
    cmd_publish-caps toy_net system stored toy_floats from_str (contents (text "x")) table flags
      call 9 (start toy_floats 4 9) refl called begins

abbrev empty : Profile
empty = record { keyring = none; key_file = none; meta_file = none }

abbrev printed : Name
printed = record { vanity = []; keyid = replicate 26 b'b' }

initialized : cmd_init toy system 26 false (ok owner) empty ≡ (stored, ok printed)
unfolding commanding
initialized = refl

abbrev at_hand : Publishing Store
at_hand = record {
  swarm = [];
  keyid = replicate 26 b'b';
  name = record { vanity = text "home"; keyid = replicate 26 b'b' };
  dk = dht_key toy (replicate 26 b'b');
  peer = owner.signing;
  peer_id = owner.signing;
}

cfg_publish : cmd_publish toy_net system stored (ok (fill table)) flags ≡ ok call
unfolding commanding
cfg_publish = refl

starts :
    publish_start toy_net builder toy call.identity call.net_cfg call.keyid_len call.vanity
    ≡ ok at_hand
unfolding commanding meeting is_base32_lower
starts = refl

secret-length : length (secret_bytes owner) ≡ 32
unfolding commanding
secret-length = refl

publish-init_example :
    (at_hand.keyid ≡ printed.keyid)
    × (at_hand.dk ≡ dht_key toy printed.keyid)
    × (at_hand.name ≡ record { vanity = call.vanity; keyid = printed.keyid })
publish-init_example =
    publish-init toy toy-IsSound toy_net system 26 false owner empty stored printed (fill table)
      flags call builder at_hand initialized secret-length refl (λ h. refl, λ h. cc) cfg_publish
      starts

abbrev keeping : List CliCommand
keeping =
    init (record { keyid_len = 20; vanity_prefix = none; force = false }) owner none
    ∷ publish flags
    ∷ name (record { vanity = []; keyid_len = some 99 })
    ∷ []

-- Without `forget` and `--force`, a profile that has an identity stays as it is.
kept_test : run_commands toy toy_net system (ok (fill table)) keeping stored ≡ stored
unfolding commanding
kept_test = refl

pub ran :
    (run_command toy toy_net system (ok (fill table)) (publish flags) stored).1
    ≡ ok (publishes call)
unfolding commanding
ran = refl

abbrev vanity_args : InitArgs
vanity_args = record { keyid_len = 20; vanity_prefix = some prefix; force = true }

abbrev ground : Name
ground = record { vanity = []; keyid = replicate 20 b'b' }

init-vanity_example : (length ground.keyid ≡ 20) × ((rest : Str) × (ground.keyid ≡ prefix ++ rest))
unfolding commanding grinding obtain
init-vanity_example =
    init-vanity toy toy-IsSound toy_net system (ok (fill table)) prefix 4 done (some owner.signing)
      vanity_args owner stored (record stored { meta_file = some (text "20") }) ground refl
      done-GrindReach refl refl
