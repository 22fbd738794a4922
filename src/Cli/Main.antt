-- ===== src/Cli/Main.antt =====
-- `main` of crates/cli/src/main.rs: every command over the profile, up to the loops that run until
-- Ctrl-C. What `Config::load` gave, and the identity that was generated or ground, are arguments.
pub mod Duties
pub mod Vanity
pub mod Nodes
use dotminecraft.Prelude.{ℕ, Bool, Option, List, [], ◌∷◌, Result, ok, err}
use dotminecraft.Core.Text.{Str, Bytes}
use dotminecraft.Core.Crypto.{Crypto}
use dotminecraft.Core.Identity.{Identity}
use dotminecraft.Core.Name.{Name}
use dotminecraft.Net.Swarm.{Swarm}
use dotminecraft.Net.Setup.{NetConfig}
use dotminecraft.Cli.Config.{Config}
use dotminecraft.Cli.Grind.{obtain}
use dotminecraft.Cli.Keystore.{Profile, System, wipe, cmd_init, cmd_name}
use dotminecraft.Cli.Commands.{
  PublishArgs, ConnectArgs, PublishCall, ConnectCall, cmd_publish, cmd_connect, cmd_node, cmd_relay,
}

pub record InitArgs : Type 0 where
  pub keyid_len : ℕ
  pub vanity_prefix : Option Str
  pub force : Bool

pub record NameArgs : Type 0 where
  pub vanity : Str
  pub keyid_len : Option ℕ

pub record RelayArgs : Type 0 where
  pub port : ℕ
  pub mdns : Bool

pub record AgentArgs : Type 0 where
  pub control_port : ℕ

-- The commands; an `init` with what `generate` and the grinding would give.
pub data CliCommand : Type 0 where
  init : InitArgs → (generated : Identity) → (found : Option Bytes) → CliCommand
  name : NameArgs → CliCommand
  publish : PublishArgs → CliCommand
  connect : ConnectArgs → CliCommand
  doctor : CliCommand
  relay : RelayArgs → CliCommand
  forget : CliCommand
  agent : AgentArgs → CliCommand

-- What a command that succeeds prints, or goes on with.
pub data Started : Type 0 where
  prints : Name → Started
  publishes : PublishCall → Started
  connects : ConnectCall → Started
  diagnoses : Bytes × NetConfig → Started
  relays : Bytes × NetConfig → Started
  removed : List Str → Started
  serves : Bytes × NetConfig → ℕ → Started

abbrev pub and_then : {A : Type 0} → (A → Started) → Result Str A → Result Str Started
and_then f (ok a) = ok (f a)
and_then f (err e) = err e

module _ (c : Crypto) {S : Type 0} (sw : Swarm S) (sys : System) (loaded : Result Str Config) where
  unfoldable pub run_command : CliCommand → Profile → Profile × Result Str Started
  run_command (init args generated found) p =
      let id = obtain args.vanity_prefix args.keyid_len generated found in
      let (p', res) = cmd_init c sys args.keyid_len args.force id p in (p', and_then prints res)
  run_command (name args) p = (p, and_then prints (cmd_name c sys args.vanity args.keyid_len p))
  run_command (publish args) p = (p, and_then publishes (cmd_publish sw sys p loaded args))
  run_command (connect args) p = (p, and_then connects (cmd_connect sw sys p loaded args))
  run_command doctor p = (p, and_then diagnoses (cmd_node sw sys p loaded))
  run_command (relay args) p = (p, and_then relays (cmd_relay sw sys p args.port args.mdns))
  run_command forget p = let (p', res) = wipe sys p in (p', and_then removed res)
  run_command (agent args) p =
      (p, and_then (λ node. serves node args.control_port) (cmd_node sw sys p loaded))

  -- One command after the other, on one profile.
  unfoldable pub run_commands : List CliCommand → Profile → Profile
  unfolding run_command
  run_commands [] p = p
  run_commands (cmd ∷ cmds) p = run_commands cmds (run_command cmd p).0
