-- ===== src/Cli/Keystore/Commands.antt =====
-- `mc-tunnel init` and `mc-tunnel name` of crates/cli/src/main.rs.
use dotminecraft.Prelude.{
  ℕ, ◌≤◌, ◌≡◌, inl, inr, ap, true, Bool, not, ◌&&◌, Bool-cases, none, [], length, Result, ok, err,
  Result-cases, arith,
}
use dotminecraft.Core.Text.{Str}
use dotminecraft.Core.Crypto.{Crypto}
use dotminecraft.Core.Identity.{Identity, secret_bytes, name}
use dotminecraft.Core.Name.{Name}
use dotminecraft.Cli.Keystore.{
  Profile, System, save, ensure_keyid_len, or_deriving, after_save, save_found, cmd_init, cmd_name,
  exists,
}
use dotminecraft.Cli.Keystore.Identities.{IsConsistent, load-save}

after_save-ok :
    (c : Crypto) (sys : System) (id : Identity) (n : ℕ) (s : Profile × Result Str Str)
    (p' : Profile) (nm : Name)
    → after_save c sys id n s ≡ (p', ok nm)
    → ((location : Str) × (s ≡ (p', ok location))) × (or_deriving (name c id [] n) ≡ ok nm)
unfolding after_save
after_save-ok c sys id n (p, err e) p' nm h = cc
after_save-ok c sys id n (p, ok l) p' nm h = ((l, ap (λ x. (x.0, ok l)) h), ap (λ x. x.1) h)

ensure-bound : (n : ℕ) (u : Unit {0}) → ensure_keyid_len n ≡ ok u → n ≤ 52
unfolding ensure_keyid_len
ensure-bound n u h = ground arith

-- An `init` that succeeds has checked the length, saved the identity and derived its name.
pub cmd_init-ok :
    (c : Crypto) (sys : System) (n : ℕ) (force : Bool) (id : Identity) (p p' : Profile) (nm : Name)
    → cmd_init c sys n force (ok id) p ≡ (p', ok nm)
    → (n ≤ 52)
      × ((location : Str) × (save sys id n force p ≡ (p', ok location)))
      × (or_deriving (name c id [] n) ≡ ok nm)
unfolding cmd_init save_found
cmd_init-ok c sys n force id p p' nm h = elim (Result-cases (ensure_keyid_len n)) [
  | inr (e, q) ↦ cc (rw (q, cmd_init) at h)
  | inl (u, q) ↦ elim (Bool-cases (exists sys p && not force)) [
    | inl there ↦ cc (rw (q, cmd_init, there) at h)
    | inr free ↦
        let (saved, named) =
          after_save-ok c sys id n (save sys id n force p) p' nm (rw (q, cmd_init, free) at h) in
        (ensure-bound n u q, saved, named)
  ]
]

-- After an `init` that succeeds, `name` without arguments prints the name that `init` printed, for a
-- secret of 32 bytes, where files can be read, the keyring can be read if it can be written, and it
-- gives no secret if it cannot be written.
pub cmd_name-cmd_init :
    (c : Crypto) (sys : System) (n : ℕ) (force : Bool) (id : Identity) (p p' : Profile) (nm : Name)
    → cmd_init c sys n force (ok id) p ≡ (p', ok nm)
    → length (secret_bytes id) ≡ 32
    → sys.reads_files ≡ true
    → IsConsistent sys p
    → cmd_name c sys [] none p' ≡ ok nm
unfolding cmd_name
cmd_name-cmd_init c sys n force id p p' nm h size reads consistent =
    let (small, (location, saved), named) = cmd_init-ok c sys n force id p p' nm h in
    let (loaded, long) =
      load-save sys p p' id n force location saved size (omega arith) reads consistent in
    rw (loaded, long) named
