-- ===== src/Cli/Keystore/Identities.antt =====
-- What `save`, `load` and `wipe` of crates/cli/src/keystore.rs keep of an identity, and what
-- `mc-tunnel init` and `mc-tunnel name` of crates/cli/src/main.rs say of it.
use dotminecraft.Prelude.{
  ℕ, ◌^◌, ◌<◌, ◌≡◌, ◌⊎◌, inl, inr, refl, ap, ◌∙◌, true, false, ◌&&◌, Bool, none, some, List, length,
  &&_iff, Bool-cases, Option-cases, Result, ok, err, arith,
}
use dotminecraft.Core.Text.{Str, Bytes, text}
use dotminecraft.Core.Identity.{Identity, from_secret_bytes, secret_bytes}
use dotminecraft.Cli.Keystore.{
  Profile, System, Write, written, not_opened, broken_after, write_result, show_usize, keyring_load,
  exists, store_secret, store_meta, save, load_file, load, wipe, keyring_removed, load_keyid_len,
}
use dotminecraft.Cli.Keystore.Decimal.{parse_usize-show_usize, from_utf8-show_usize}

-- Without `force`, a profile whose identity can be loaded is left as it is.
pub save-protects :
    (sys : System) (p : Profile) (id old : Identity) (n : ℕ)
    → load sys p ≡ ok old
    → save sys id n false p ≡ (p, err (text "identity already exists (use --force to overwrite)"))
unfolding save load exists load_file
save-protects sys p id old n h = elim (Option-cases (keyring_load sys p)) [
  | inr (secret, e) ↦ rw e refl
  | inl e ↦ elim (Option-cases p.key_file) [
    | inr (bytes, q) ↦ rw (e, q) refl
    | inl q ↦ cc (rw (e, load, q, load_file) at h)
  ]
]

Write-cases : (w : Write) → (w ≡ written) ⊎ ((e : Str) × (write_result w ≡ err e))
Write-cases written = inl refl
Write-cases not_opened = inr (_, refl)
Write-cases (broken_after n) = inr (_, refl)

save-stores :
    (sys : System) (p : Profile) (id : Identity) (n : ℕ) (force : Bool) (p' : Profile)
    (location : Str)
    → save sys id n force p ≡ (p', ok location)
    → store_meta sys n (store_secret sys (secret_bytes id) p) ≡ (p', ok location)
unfolding save
save-stores sys p id n force p' location h = ground arith

store_meta-ok :
    (sys : System) (n : ℕ) (q p' : Profile) (r : Result Str Str) (location : Str)
    → store_meta sys n (q, r) ≡ (p', ok location)
    → (r ≡ ok location) × (p' ≡ record q { meta_file = some (show_usize n) })
unfolding store_meta
store_meta-ok sys n q p' (err e) location h = cc
store_meta-ok sys n q p' (ok l) location h = elim (Write-cases sys.meta_write) [
  | inr (e, w) ↦ cc (rw w at h)
  | inl w ↦ let g = rw w at h in ground arith
]

-- Where the secret of a `store_secret` that succeeds stands.
store_secret-ok :
    (sys : System) (secret : Bytes) (p : Profile) (l : Str)
    → (store_secret sys secret p).1 ≡ ok l
    → (((sys.opens_entry && sys.sets_secret) ≡ true)
        × ((store_secret sys secret p).0.keyring ≡ some secret))
      ⊎ (((sys.opens_entry && sys.sets_secret) ≡ false)
          × ((store_secret sys secret p).0.keyring ≡ p.keyring)
          × ((store_secret sys secret p).0.key_file ≡ some secret))
unfolding store_secret
store_secret-ok sys secret p l h = elim (Bool-cases (sys.opens_entry && sys.sets_secret)) [
  | inl ring ↦ rw ring (inl (refl, refl))
  | inr none_there ↦ elim (Write-cases sys.key_write) [
    | inr (e, w) ↦ cc (rw (none_there, w) at h)
    | inl w ↦ rw (none_there, w) (inr (refl, refl, refl))
  ]
]

-- Where the keyring can be written, the secret of a `save` that succeeds stands there.
pub save-keyring :
    (sys : System) (p p' : Profile) (id : Identity) (n : ℕ) (force : Bool) (location : Str)
    → save sys id n force p ≡ (p', ok location)
    → (sys.opens_entry && sys.sets_secret) ≡ true
    → p'.keyring ≡ some (secret_bytes id)
save-keyring sys p p' id n force location h ring =
    let stored = store_secret sys (secret_bytes id) p in
    let (e, q) =
      store_meta-ok sys n stored.0 p' stored.1 location
        (save-stores sys p id n force p' location h) in
    elim (store_secret-ok sys (secret_bytes id) p location e) [
      | inl (r, k) ↦ ap (λ x. x.keyring) q ∙ k
      | inr (r, k, f) ↦ cc
    ]

pub keyring_load-same :
    (sys : System) (p q : Profile) → p.keyring ≡ q.keyring → keyring_load sys p ≡ keyring_load sys q
unfolding keyring_load
keyring_load-same sys p q e = rw e refl

keyring_load-ring :
    (sys : System) (p : Profile) (secret : Bytes)
    → sys.opens_entry ≡ true
    → sys.gets_secret ≡ true
    → p.keyring ≡ some secret
    → length secret ≡ 32
    → keyring_load sys p ≡ some secret
unfolding keyring_load
keyring_load-ring sys p secret a b e size = rw (a, b, e) (rw size refl)

pub load-ring :
    (sys : System) (p : Profile) (secret : Bytes)
    → sys.opens_entry ≡ true
    → sys.gets_secret ≡ true
    → p.keyring ≡ some secret
    → length secret ≡ 32
    → load sys p ≡ ok (from_secret_bytes secret)
unfolding load
load-ring sys p secret a b e size = rw (keyring_load-ring sys p secret a b e size, load) refl

pub load-key_file :
    (sys : System) (p : Profile) (secret : Bytes)
    → keyring_load sys p ≡ none
    → p.key_file ≡ some secret
    → sys.reads_files ≡ true
    → length secret ≡ 32
    → load sys p ≡ ok (from_secret_bytes secret)
unfolding load load_file
load-key_file sys p secret a e reads size = rw (a, load, e, reads, size) refl

load_keyid_len-show :
    (sys : System) (p : Profile) (n : ℕ)
    → n < 2 ^ 64
    → sys.reads_files ≡ true
    → p.meta_file ≡ some (show_usize n)
    → load_keyid_len sys p ≡ ok n
unfolding load_keyid_len
load_keyid_len-show sys p n h reads e =
    rw (e, load_keyid_len, from_utf8-show_usize n, reads) (parse_usize-show_usize n h)

-- When the keyring can be written it can be read; when it cannot, no secret is read from it.
abbrev pub IsConsistent : System → Profile → Type 0
IsConsistent sys p =
    ((sys.opens_entry && sys.sets_secret) ≡ true → sys.gets_secret ≡ true)
    × ((sys.opens_entry && sys.sets_secret) ≡ false → keyring_load sys p ≡ none)

-- The identity and the length can be loaded.
abbrev pub Holds : System → Identity → ℕ → Profile → Type 0
Holds sys id n p = (load sys p ≡ ok id) × (load_keyid_len sys p ≡ ok n)

-- What `save` stored is what `load` and `load_keyid_len` give, whether the secret went into the
-- keyring or into the key file: for a secret of 32 bytes and a length that fits its type, where
-- files can be read, the keyring can be read if it can be written, and it gives no secret if it
-- cannot be written.
pub load-save :
    (sys : System) (p p' : Profile) (id : Identity) (n : ℕ) (force : Bool) (location : Str)
    → save sys id n force p ≡ (p', ok location)
    → length (secret_bytes id) ≡ 32
    → n < 2 ^ 64
    → sys.reads_files ≡ true
    → IsConsistent sys p
    → Holds sys id n p'
unfolding from_secret_bytes secret_bytes
load-save sys p p' id n force location h size fits reads (can, cannot) =
    let secret = secret_bytes id in
    let stored = store_secret sys secret p in
    let (r, e) =
      store_meta-ok sys n stored.0 p' stored.1 location
        (save-stores sys p id n force p' location h) in
    (
      elim (store_secret-ok sys secret p location r) [
        | inl (ring, k) ↦
            load-ring sys p' secret ((&&_iff sys.opens_entry sys.sets_secret).0 ring).0 (can ring)
              (ap (λ x. x.keyring) e ∙ k) size
        | inr (no_ring, k, f) ↦
            let unread = keyring_load-same sys p' p (ap (λ x. x.keyring) e ∙ k) ∙ cannot no_ring in
            load-key_file sys p' secret unread (ap (λ x. x.key_file) e ∙ f) reads size
      ],
      load_keyid_len-show sys p' n fits reads (ap (λ x. x.meta_file) e),
    )

-- An old secret that the keyring still gives hides the new one: where the keyring can be read and
-- not written, `save` with `force` succeeds, if it does, without the new identity being loaded
-- afterwards: `load` gives the old one as before.
pub save-shadowed :
    (sys : System) (p p' : Profile) (id : Identity) (n : ℕ) (location : Str) (old : Bytes)
    → keyring_load sys p ≡ some old
    → sys.sets_secret ≡ false
    → save sys id n true p ≡ (p', ok location)
    → load sys p' ≡ ok (from_secret_bytes old)
unfolding load
save-shadowed sys p p' id n location old h unset saved =
    let secret = secret_bytes id in
    let stored = store_secret sys secret p in
    let (r, e) =
      store_meta-ok sys n stored.0 p' stored.1 location
        (save-stores sys p id n true p' location saved) in
    elim (store_secret-ok sys secret p location r) [
      | inl (ring, k) ↦ cc (unset, ((&&_iff sys.opens_entry sys.sets_secret).0 ring).1)
      | inr (no_ring, k, f) ↦
          rw (keyring_load-same sys p' p (ap (λ x. x.keyring) e ∙ k) ∙ h, load) refl
    ]

-- After a `wipe` that succeeds the profile has no identity, where the entry of the keyring can be
-- deleted or gave no secret before.
pub exists-wipe :
    (sys : System) (p p' : Profile) (removed : List Str)
    → wipe sys p ≡ (p', ok removed)
    → ((sys.opens_entry && sys.deletes_credential) ≡ true) ⊎ (keyring_load sys p ≡ none)
    → exists sys p' ≡ false
unfolding wipe exists keyring_load keyring_removed
exists-wipe sys p p' removed h gone = ground arith
