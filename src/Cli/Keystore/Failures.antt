-- ===== src/Cli/Keystore/Failures.antt =====
-- What a `save` of crates/cli/src/keystore.rs that fails leaves behind.
use dotminecraft.Prelude.{
  ℕ, ◌≡◌, ◌⊎◌, inl, inr, refl, sym, ap, ◌∙◌, true, false, not, ◌&&◌, Bool, Bool-cases, some, take,
  length, ok, err, arith,
}
use dotminecraft.Core.Text.{Str}
use dotminecraft.Core.Identity.{Identity, from_secret_bytes, secret_bytes}
use dotminecraft.Cli.Keystore.{
  Profile, System, Write, written, not_opened, broken_after, exists, store_secret, store_meta, save,
  load,
}
use dotminecraft.Cli.Keystore.Identities.{IsConsistent, load-ring, load-key_file, keyring_load-same}

-- The writing of the key file broke off, and nothing else changed.
abbrev pub IsCutOff : System → Identity → Profile → Profile → Type 0
IsCutOff sys id p p' =
    (k : ℕ) × (sys.key_write ≡ broken_after k)
    × (p' ≡ record p { key_file = some (take k (secret_bytes id)) })

-- What can be left: the profile as it was, the new identity, or a key file that is cut off.
abbrev pub Left : System → Identity → Profile → Profile → Type 0
Left sys id p p' = (p' ≡ p) ⊎ ((load sys p' ≡ ok id) ⊎ IsCutOff sys id p p')

module _ (sys : System) (p p' : Profile) (id : Identity) (n : ℕ) (e : Str)
    (size : length (secret_bytes id) ≡ 32) (reads : sys.reads_files ≡ true)
    (consistent : IsConsistent sys p) where
  in_keyring :
      (sys.opens_entry && sys.sets_secret) ≡ true
      → store_meta sys n (store_secret sys (secret_bytes id) p) ≡ (p', err e)
      → load sys p' ≡ ok id
  unfolding store_secret store_meta from_secret_bytes secret_bytes
  in_keyring ring h =
      let stored = ap (λ x. x.0) (rw (ring, store_secret) at h) in
      load-ring sys p' (secret_bytes id) (ground arith) (consistent.0 ring)
        (ap (λ x. x.keyring) (sym stored)) size

  in_file :
      (sys.opens_entry && sys.sets_secret) ≡ false
      → (w : Write) → sys.key_write ≡ w
      → store_meta sys n (store_secret sys (secret_bytes id) p) ≡ (p', err e)
      → Left sys id p p'
  unfolding store_secret store_meta from_secret_bytes secret_bytes
  in_file closed written w h =
      let stored = ap (λ x. x.0) (rw (closed, store_secret, w) at h) in
      let silent =
        keyring_load-same sys p' p (ap (λ x. x.keyring) (sym stored)) ∙ consistent.1 closed in
      inr (
        inl (
          load-key_file sys p' (secret_bytes id) silent (ap (λ x. x.key_file) (sym stored)) reads
            size))
  in_file closed not_opened w h = inl (sym (ap (λ x. x.0) (rw (closed, store_secret, w) at h)))
  in_file closed (broken_after k) w h =
      inr (inr (k, w, sym (ap (λ x. x.0) (rw (closed, store_secret, w) at h))))

  -- A `save` that fails has changed nothing, or the new identity is loaded all the same, as when the
  -- length could not be written, or it has cut off the key file alone: for a secret of 32 bytes, where
  -- files can be read, the keyring can be read if it can be written, and it gives no secret if it
  -- cannot be written.
  pub save-err : (force : Bool) → save sys id n force p ≡ (p', err e) → Left sys id p p'
  unfolding save
  save-err force h = elim (Bool-cases (exists sys p && not force)) [
    | inl there ↦ inl (sym (ap (λ x. x.0) (rw (there, save) at h)))
    | inr free ↦ elim (Bool-cases sys.creates_dir) [
      | inr without ↦ inl (sym (ap (λ x. x.0) (rw (free, save, without) at h)))
      | inl made ↦
          let stores = rw (free, save, made) at h in
          elim (Bool-cases (sys.opens_entry && sys.sets_secret)) [
            | inl ring ↦ inr (inl (in_keyring ring stores))
            | inr closed ↦ in_file closed sys.key_write refl stores
          ]
    ]
  ]
