-- ===== src/Cli/Commands/Named.antt =====
-- `init` and then `publish` of crates/cli/src/main.rs: the name that is published.
use dotminecraft.Prelude.{ℕ, ◌≡◌, sym, ap, ◌∙◌, Bool, true, [], length, ok, ok-injective, arith}
use dotminecraft.Core.Text.{Str}
use dotminecraft.Core.Crypto.{Crypto, IsSound}
use dotminecraft.Core.Identity.{Identity, secret_bytes, public_bytes, name}
use dotminecraft.Core.Name.{Name}
use dotminecraft.Core.Name.Keyid.{from_pubkey_sound}
use dotminecraft.Core.Record.{dht_key}
use dotminecraft.Net.Swarm.{Swarm}
use dotminecraft.Cli.Config.{Config}
use dotminecraft.Net.Behaviour.{Builder}
use dotminecraft.Cli.Tunnel.Sessions.{Publishing, publish_start}
use dotminecraft.Cli.Tunnel.Sessions.Meet.{name-IsOf, or_deriving-ok, publish_start-Consistent}
use dotminecraft.Cli.Keystore.{Profile, System, cmd_init, or_deriving}
use dotminecraft.Cli.Keystore.Identities.{Holds, IsConsistent, load-save}
use dotminecraft.Cli.Keystore.Commands.{cmd_init-ok}
use dotminecraft.Cli.Commands.{PublishArgs, PublishCall, cmd_publish}
use dotminecraft.Cli.Commands.Roles.{cmd_publish-ok}

name-label :
    (c : Crypto) (sound : IsSound c) (id : Identity) (vanity : Str) (n : ℕ) (nm : Name)
    → or_deriving (name c id vanity n) ≡ ok nm
    → nm.vanity ≡ vanity
unfolding name
name-label c sound id vanity n nm h =
    (from_pubkey_sound c sound (public_bytes c id) vanity n nm (or_deriving-ok _ nm h)).1

-- What a later command loads is what `init` stored.
cmd_init-Holds :
    (c : Crypto) (sys : System) (n : ℕ) (force : Bool) (id : Identity) (p p' : Profile) (nm : Name)
    → cmd_init c sys n force (ok id) p ≡ (p', ok nm)
    → length (secret_bytes id) ≡ 32
    → sys.reads_files ≡ true
    → IsConsistent sys p
    → Holds sys id n p'
cmd_init-Holds c sys n force id p p' nm h size reads consistent =
    let (small, (location, saved), named) = cmd_init-ok c sys n force id p p' nm h in
    load-save sys p p' id n force location saved size (omega arith) reads consistent

module _ (c : Crypto) (sound : IsSound c) {S : Type 0} (sw : Swarm S) (sys : System) where
  -- A publisher is found under the keyid that `init` printed: after an `init` that succeeds, a
  -- `publish` whose tasks start has that keyid, whatever the configuration says, puts its records
  -- under the DHT key of that keyid, and prints a name of it with the label that it was called with;
  -- for a secret of 32 bytes, where files can be read, the keyring can be read if it can be written,
  -- and it gives no secret if it cannot be written.
  pub publish-init :
      (n : ℕ) (force : Bool) (id : Identity) (p p' : Profile) (nm : Name) (cfg : Config)
      (args : PublishArgs) (call : PublishCall) (b : Builder S) (at_hand : Publishing S)
      → cmd_init c sys n force (ok id) p ≡ (p', ok nm)
      → length (secret_bytes id) ≡ 32
      → sys.reads_files ≡ true
      → IsConsistent sys p
      → cmd_publish sw sys p' (ok cfg) args ≡ ok call
      → publish_start sw b c call.identity call.net_cfg call.keyid_len call.vanity ≡ ok at_hand
      → (at_hand.keyid ≡ nm.keyid)
        × (at_hand.dk ≡ dht_key c nm.keyid)
        × (at_hand.name ≡ record { vanity = call.vanity; keyid = nm.keyid })
  publish-init n force id p p' nm cfg args call b at_hand h size reads consistent called started =
      let (loaded, long) = cmd_init-Holds c sys n force id p p' nm h size reads consistent in
      let made = cmd_publish-ok sw sys p' cfg args call called in
      let same : id ≡ call.identity = ok-injective (sym loaded ∙ made.identity) in
      let len : n ≡ call.keyid_len = ok-injective (sym long ∙ made.keyid_len) in
      let printed = (name-IsOf c sound id [] n nm (cmd_init-ok c sys n force id p p' nm h).2).1 in
      let (named, keyid, dk, peer_id, peer) =
        publish_start-Consistent c sound sw b call.identity call.net_cfg call.keyid_len call.vanity
          at_hand started in
      let of = (name-IsOf c sound call.identity call.vanity call.keyid_len at_hand.name named).1 in
      let label = name-label c sound call.identity call.vanity call.keyid_len at_hand.name named in
      let key : at_hand.name.keyid ≡ nm.keyid = of ∙ sym (rw (same, len) at printed) in
      (keyid ∙ key, dk ∙ ap (dht_key c) key, cc (label, key))
