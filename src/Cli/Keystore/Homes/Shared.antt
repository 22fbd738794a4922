-- ===== src/Cli/Keystore/Homes/Shared.antt =====
-- Homes whose texts are the same: the entry that `keyring_entry` of crates/cli/src/keystore.rs opens
-- for them is one.
use dotminecraft.Prelude.{ℕ, ◌≡◌, refl, sym, ap, ◌∙◌, Bool, true, length, Result, ok, err}
use dotminecraft.Core.Text.{Str, Bytes}
use dotminecraft.Core.Text.Utf8.{to_string_lossy}
use dotminecraft.Core.Identity.{Identity, from_secret_bytes, secret_bytes}
use dotminecraft.Cli.Keystore.{Profile, System, save}
use dotminecraft.Cli.Keystore.Homes.{
  Machine, Env, config_dir, profile_in, with_profile, Operation, saves, answering, saved, loads,
  loaded, operate, operate_in,
}
use dotminecraft.Cli.Keystore.Homes.Apart.{lookup-put_self}
use dotminecraft.Cli.Keystore.Identities.{save-keyring, load-ring}

answering-saved :
    (s : Profile × Result Str Str) (location : Str)
    → answering saved s.1 ≡ ok (saved location)
    → s ≡ (s.0, ok location)
answering-saved (p, ok l) location h = cc
answering-saved (p, err e) location h = cc

module _ (locate : Bytes → Bytes → ℕ) where
  operate_in-at :
      (env : Env) (dir : Bytes) (sys : System) (op : Operation) (m : Machine)
      → config_dir env ≡ ok dir
      → operate_in locate env sys op m ≡ (
          let done = operate sys op (profile_in locate env.cwd dir m) in
          (with_profile locate env.cwd dir done.0 m, done.1))
  unfolding operate_in
  operate_in-at env dir sys op m e = rw (e, operate_in) refl

  keyring-with :
      (cwd dir cwd' dir' : Bytes) (p : Profile) (m : Machine)
      → to_string_lossy dir ≡ to_string_lossy dir'
      → (profile_in locate cwd' dir' (with_profile locate cwd dir p m)).keyring ≡ p.keyring
  unfolding profile_in with_profile
  keyring-with cwd dir cwd' dir' p m same =
      rw same (lookup-put_self (to_string_lossy dir') p.keyring m.keyring)

  -- Two homes with the same text share their entry of the keyring: after a `save` in one that
  -- succeeds, `load` in the other gives the identity that was saved, whatever its own was, where the
  -- keyring can be written and read. So it is with a relative home in two directories.
  pub load-save_shared :
      (env other : Env) (dir dir' : Bytes) (sys : System) (id : Identity) (n : ℕ) (force : Bool)
      (m : Machine) (location : Str)
      → config_dir env ≡ ok dir
      → config_dir other ≡ ok dir'
      → to_string_lossy dir ≡ to_string_lossy dir'
      → (operate_in locate env sys (saves id n force) m).1 ≡ ok (saved location)
      → sys.opens_entry ≡ true
      → sys.sets_secret ≡ true
      → sys.gets_secret ≡ true
      → length (secret_bytes id) ≡ 32
      → (operate_in locate other sys loads (operate_in locate env sys (saves id n force) m).0).1
        ≡ ok (loaded id)
  unfolding operate from_secret_bytes secret_bytes
  load-save_shared env other dir dir' sys id n force m location e e' same h opens sets gets size =
      let p = profile_in locate env.cwd dir m in
      let s = save sys id n force p in
      let there = operate_in-at env dir sys (saves id n force) m e in
      let done = answering-saved s location (sym (ap (λ x. x.1) there) ∙ h) in
      let ring = save-keyring sys p s.0 id n force location done (rw (opens, sets) refl) in
      let m' = with_profile locate env.cwd dir s.0 m in
      let found =
        load-ring sys (profile_in locate other.cwd dir' m') (secret_bytes id) opens gets
          (keyring-with env.cwd dir other.cwd dir' s.0 m same ∙ ring) size in
      rw (ap (λ x. x.0) there)
        (ap (λ x. x.1) (operate_in-at other dir' sys loads m' e') ∙ rw found refl)
