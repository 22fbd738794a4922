-- ===== src/Cli/Main/Vanity.antt =====
-- `init --vanity-prefix` of crates/cli/src/main.rs on the grinding of crates/cli/src/grind.rs.
use dotminecraft.Prelude.{
  ℕ, ◌≤◌, ◌≡◌, inl, inr, refl, sym, ap, ◌∙◌, Bool, Option, none, some, [], ◌++◌, length,
  take-extends, not, ◌&&◌, Bool-cases, Result, ok, err, ok-injective, Result-cases, arith,
}
use dotminecraft.Core.Text.{Str, Bytes, len}
use dotminecraft.Core.Crypto.{Crypto, IsSound}
use dotminecraft.Core.Identity.{Identity, public_bytes, from_secret_bytes}
use dotminecraft.Core.Name.{Name, keyid_from_pubkey, keyid_full_from_pubkey}
use dotminecraft.Core.Name.Keyid.{keyid-take, length-keyid}
use dotminecraft.Net.Swarm.{Swarm}
use dotminecraft.Cli.Config.{Config}
use dotminecraft.Cli.Grind.{Grind, GrindReach, Matches, validate, grind_result, obtain}
use dotminecraft.Cli.Grind.Found.{outcome-Matches}
use dotminecraft.Cli.Keystore.{Profile, System, cmd_init, ensure_keyid_len, exists, save_found}
use dotminecraft.Cli.Keystore.Commands.{cmd_init-ok}
use dotminecraft.Cli.Tunnel.Sessions.Meet.{name-IsOf}
use dotminecraft.Cli.Main.{InitArgs, init, Started, prints, and_then, run_command}

validate-len : (prefix : Str) (n : ℕ) (u : Unit {0}) → validate prefix n ≡ ok u → len prefix ≤ n
unfolding validate
validate-len prefix n u h = ground arith

-- An identity that was ground comes from the secret that was found, and the prefix is no longer than
-- the keyid.
obtain-ok :
    (prefix : Str) (n : ℕ) (generated id : Identity) (found : Option Bytes)
    → obtain (some prefix) n generated found ≡ ok id
    → (secret : Bytes) × (found ≡ some secret) × (from_secret_bytes secret ≡ id) × (len prefix ≤ n)
unfolding obtain grind_result
obtain-ok prefix n generated id none h = elim (Result-cases (validate prefix n)) [
  | inr (e, q) ↦ cc (rw (q, obtain) at h)
  | inl (u, q) ↦ cc (rw (q, obtain) at h)
]
obtain-ok prefix n generated id (some secret) h = elim (Result-cases (validate prefix n)) [
  | inr (e, q) ↦ cc (rw (q, obtain) at h)
  | inl (u, q) ↦ (secret, refl, ok-injective (rw (q, obtain) at h), validate-len prefix n u q)
]

-- An `init` that succeeds has an identity.
cmd_init-IsObtained :
    (c : Crypto) (sys : System) (n : ℕ) (force : Bool) (obtained : Result Str Identity)
    (p p' : Profile) (nm : Name)
    → cmd_init c sys n force obtained p ≡ (p', ok nm)
    → (id : Identity) × (obtained ≡ ok id)
unfolding cmd_init save_found
cmd_init-IsObtained c sys n force (ok id) p p' nm h = (id, refl)
cmd_init-IsObtained c sys n force (err x) p p' nm h = elim (Result-cases (ensure_keyid_len n)) [
  | inr (e, q) ↦ cc (rw (q, cmd_init) at h)
  | inl (u, q) ↦ elim (Bool-cases (exists sys p && not force)) [
    | inl there ↦ cc (rw (q, cmd_init, there) at h)
    | inr free ↦ cc (rw (q, cmd_init, free) at h)
  ]
]

Matches-public :
    (c : Crypto) (prefix : Str) (secret : Bytes) (id : Identity)
    → Matches c prefix secret
    → from_secret_bytes secret ≡ id
    → keyid_from_pubkey c (public_bytes c id) (len prefix) ≡ prefix
unfolding Matches from_secret_bytes public_bytes
Matches-public c prefix secret id m e = rw (sym e) m

prints-injective :
    (s : Profile × Result Str Name) (p' : Profile) (nm : Name)
    → ◌≡◌ {A = Profile × Result Str Started} (s.0, and_then prints s.1) (p', ok (prints nm))
    → s ≡ (p', ok nm)
prints-injective (q, ok n) p' nm h = cc
prints-injective (q, err e) p' nm h = cc

module _ (c : Crypto) (sound : IsSound c) {S : Type 0} (sw : Swarm S) (sys : System)
    (loaded : Result Str Config) where
  -- A ground name begins as it was asked for: under sound cryptography, the name that an
  -- `init --vanity-prefix` prints, after whatever interleaving of its workers, the reporter and
  -- Ctrl-C, has a keyid of the length that was asked for, which begins with the prefix.
  pub init-vanity :
      (prefix : Str) (threads : ℕ) (g : Grind) (found : Option Bytes) (args : InitArgs)
      (generated : Identity) (p p' : Profile) (nm : Name)
      → args.vanity_prefix ≡ some prefix
      → GrindReach c prefix threads g
      → g.outcome ≡ some found
      → run_command c sw sys loaded (init args generated found) p ≡ (p', ok (prints nm))
      → (length nm.keyid ≡ args.keyid_len) × ((rest : Str) × (nm.keyid ≡ prefix ++ rest))
  unfolding run_command
  init-vanity prefix threads g found args generated p p' nm asked reach ended h =
      let run = prints-injective _ p' nm (rw asked at h) in
      let (id, got) = cmd_init-IsObtained c sys args.keyid_len args.force _ p p' nm run in
      let (secret, at_end, same, within) = obtain-ok prefix args.keyid_len generated id found got in
      let (small, saved, named) =
        cmd_init-ok c sys args.keyid_len args.force id p p' nm (rw got at run) in
      let of = (name-IsOf c sound id [] args.keyid_len nm named).1 in
      let m = outcome-Matches c prefix threads g secret reach (ended ∙ ap some at_end) in
      let begun = Matches-public c prefix secret id m same in
      let full = keyid_full_from_pubkey c (public_bytes c id) in
      let (rest, e) = take-extends (len prefix) args.keyid_len full within in
      let head = sym (keyid-take c sound (public_bytes c id) (len prefix)) ∙ begun in
      (
        ap length of ∙ length-keyid c sound (public_bytes c id) args.keyid_len small,
        (
          rest,
          of ∙ keyid-take c sound (public_bytes c id) args.keyid_len ∙ e ∙ ap (λ s. s ++ rest) head,
        ),
      )
