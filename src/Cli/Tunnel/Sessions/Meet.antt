-- ===== src/Cli/Tunnel/Sessions/Meet.antt =====
-- `publish` and `connect` of crates/cli/src/tunnel.rs meet at the name that is printed.
use dotminecraft.Prelude.{
  ℕ, ◌+◌, ◌≡◌, ◌∙◌, subst, inl, inr, refl, sym, ap, some, List, ◌∷◌, ◌++◌, All, Elem, filter_map,
  Result, ok, err, ok-injective, Result-cases, arith,
}
use dotminecraft.Core.Text.{Str, Bytes}
use dotminecraft.Core.Body.{Record}
use dotminecraft.Core.Crypto.{Crypto, IsSound}
use dotminecraft.Core.Identity.{Identity, public_bytes, secret_bytes, name}
use dotminecraft.Core.Name.{Name, to_string, from_pubkey, keyid_from_pubkey}
use dotminecraft.Core.Name.Bounds.{IsValid}
use dotminecraft.Core.Name.Keyid.{from_pubkey_sound}
use dotminecraft.Core.Name.Parse.{parse-to_string}
use dotminecraft.Core.Record.{dht_key}
use dotminecraft.Core.Record.Verify.{IsFresh}
use dotminecraft.Core.Record.Select.{Trusted}
use dotminecraft.Net.Swarm.{Swarm, PeerId}
use dotminecraft.Net.Behaviour.{Builder, keypair_from_secret, build_swarm}
use dotminecraft.Net.Setup.{NetConfig, prepare}
use dotminecraft.Net.Message.{DoctorInfo}
use dotminecraft.Cli.Keystore.{or_deriving}
use dotminecraft.Cli.Tunnel.{
  Attempt, max_skew, resolve_timeout, advertised_addrs, build_record, round_put, dialled,
}
use dotminecraft.Cli.Tunnel.Resolve.{Fruitless}
use dotminecraft.Cli.Tunnel.Publish.{IsPublishable, establish-round_put}
use dotminecraft.Cli.Tunnel.Sessions.{Publishing, spawn, publish_start, connect_start, connect_peer}

pub or_deriving-ok :
    {E : Type 0} (res : Result E Name) (nm : Name) → or_deriving res ≡ ok nm → res ≡ ok nm
or_deriving-ok (ok n) nm h = ground arith
or_deriving-ok (err e) nm h = cc

from_pubkey-keyid :
    (c : Crypto) (pk : Bytes) (vanity : Str) (n : ℕ) (nm : Name)
    → from_pubkey c pk vanity n ≡ ok nm
    → nm.keyid ≡ keyid_from_pubkey c pk n
unfolding from_pubkey
from_pubkey-keyid c pk vanity n nm h = ground arith

-- A derived name is valid, and its keyid is the one of the length that was asked for.
abbrev pub IsOf : Crypto → Identity → ℕ → Name → Type 0
IsOf c id n nm = IsValid nm × (nm.keyid ≡ keyid_from_pubkey c (public_bytes c id) n)

pub name-IsOf :
    (c : Crypto) (sound : IsSound c) (id : Identity) (vanity : Str) (n : ℕ) (nm : Name)
    → or_deriving (name c id vanity n) ≡ ok nm
    → IsOf c id n nm
unfolding name
name-IsOf c sound id vanity n nm h =
    let e = or_deriving-ok (from_pubkey c (public_bytes c id) vanity n) nm h in
    (
      (from_pubkey_sound c sound (public_bytes c id) vanity n nm e).0,
      from_pubkey-keyid c (public_bytes c id) vanity n nm e,
    )

-- The handle's peer is the one of the key that the secret gives.
spawn-peer :
    {S : Type 0} (sw : Swarm S) (b : Builder S) (secret : Bytes) (cfg : NetConfig) (x : S × PeerId)
    → spawn sw b secret cfg ≡ ok x
    → (key : Bytes) × (b.ed25519_from_bytes secret ≡ ok key) × (x.1 ≡ b.to_peer_id key)
unfolding spawn keypair_from_secret
spawn-peer sw b secret cfg x h = elim (Result-cases (b.ed25519_from_bytes secret)) [
  | inr (y, e) ↦ cc (rw (e, spawn, keypair_from_secret) at h)
  | inl (key, e) ↦ elim (Result-cases (build_swarm b secret cfg)) [
    | inr (y, q) ↦ cc (rw (e, spawn, keypair_from_secret, q) at h)
    | inl (built, q) ↦ elim (Result-cases (prepare sw cfg built)) [
      | inr (y, m) ↦ cc (rw (e, spawn, keypair_from_secret, q, m) at h)
      | inl (s, m) ↦
          let made = ok-injective (rw (e, spawn, keypair_from_secret, q, m) at h) in
          (key, e, ap (λ y. y.1) (sym made))
    ]
  ]
]

module _ (c : Crypto) (sound : IsSound c) {S : Type 0} (sw : Swarm S) where
  -- libp2p derives from a secret the key that ed25519-dalek derives from it, and so the peer of the
  -- public key is that of the secret's keypair.
  abbrev pub DerivesOneKey : Builder S → Type 0
  DerivesOneKey b =
      (id : Identity) (key : Bytes)
      → b.ed25519_from_bytes (secret_bytes id) ≡ ok key
      → sw.peer_id_from_ed25519 (public_bytes c id) ≡ ok (b.to_peer_id key)

  -- What is at hand: the name that the key, the label and the length give, the DHT key of its keyid,
  -- and the peer of the identity's secret.
  abbrev pub Consistent : Builder S → Identity → ℕ → Str → Publishing S → Type 0
  Consistent b id n vanity p =
      (or_deriving (name c id vanity n) ≡ ok p.name)
      × (p.keyid ≡ p.name.keyid)
      × (p.dk ≡ dht_key c p.name.keyid)
      × (p.peer_id ≡ sw.peer_to_string p.peer)
      × ((key : Bytes) × (b.ed25519_from_bytes (secret_bytes id) ≡ ok key)
          × (p.peer ≡ b.to_peer_id key))

  pub publish_start-Consistent :
      (b : Builder S) (id : Identity) (cfg : NetConfig) (n : ℕ) (vanity : Str) (p : Publishing S)
      → publish_start sw b c id cfg n vanity ≡ ok p
      → Consistent b id n vanity p
  unfolding publish_start
  publish_start-Consistent b id cfg n vanity p h =
      elim (Result-cases (spawn sw b (secret_bytes id) cfg)) [
        | inr (x, e) ↦ cc (rw (e, publish_start) at h)
        | inl (s, e) ↦ elim (Result-cases (or_deriving (name c id vanity n))) [
          | inr (x, q) ↦ cc (rw (e, publish_start, q) at h)
          | inl (nm, q) ↦
              let of = (name-IsOf c sound id vanity n nm q).1 in
              let g = ok-injective (rw (e, publish_start, q) at h) in
              subst (Consistent b id n vanity) g (
                q,
                sym of,
                ap (dht_key c) (sym of),
                refl,
                spawn-peer sw b (secret_bytes id) cfg s e,
              )
        ]
      ]

  -- Publishing and connecting meet: the name that `publish` prints is accepted by `connect`, which
  -- then reaches the peer that the publisher was spawned as and dials its advertised addresses that
  -- parse, if its own swarm starts, what a round of the republishing task put is among what one of
  -- its attempts brings, is fresh then, fits its types and the size limit, and is the only record
  -- there that verifies, and the attempts before it were made before the deadline and brought nothing
  -- that verifies; where libp2p derives the same key from a secret as ed25519-dalek does.
  pub connect-publish :
      (b b' : Builder S) (id : Identity) (secret' : Bytes) (cfg cfg' : NetConfig) (n ts start : ℕ)
      (vanity : Str) (p : Publishing S) (x' : S × PeerId) (info : DoctorInfo) (value : Bytes)
      (before after : List Attempt) (a : Attempt) (found : List Bytes)
      → DerivesOneKey b
      → publish_start sw b c id cfg n vanity ≡ ok p
      → round_put c id vanity p.peer_id (ok info) ts ≡ some value
      → IsPublishable c (build_record c id vanity p.peer_id (advertised_addrs info) ts)
      → spawn sw b' secret' cfg' ≡ ok x'
      → All (Fruitless c p.name (start + resolve_timeout)) before
      → a.candidates ≡ ok found
      → Elem value found
      → IsFresh a.now max_skew (build_record c id vanity p.peer_id (advertised_addrs info) ts)
      → ((bytes : Bytes) (r : Record)
          → Elem bytes found
          → Trusted c p.name.keyid a.now max_skew bytes r
          → r ≡ build_record c id vanity p.peer_id (advertised_addrs info) ts)
      → connect_peer sw b' c secret' cfg' (to_string p.name) start (before ++ a ∷ after)
        ≡ (some (ok p.peer), filter_map (dialled sw) (advertised_addrs info))
  unfolding connect_peer connect_start
  connect-publish b b' id secret' cfg cfg' n ts start vanity p x' info value before after a found
        one h put fits up fruitless q m fresh only =
      let (named, keyid, dk, same, (key, derived, peer)) =
        publish_start-Consistent b id cfg n vanity p h in
      let of = name-IsOf c sound id vanity n p.name named in
      let parsed = parse-to_string p.name of.0 in
      let self = one id key derived ∙ ap (λ k. ok k) (sym peer) in
      rw (parsed, up)
        (establish-round_put c sound sw id n vanity info ts value p.peer p.name start before after a
          found (simp same at put) (simp same at fits) self of.1 fruitless q m (simp same at fresh)
          (simp same at only))
