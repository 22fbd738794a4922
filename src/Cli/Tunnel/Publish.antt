-- ===== src/Cli/Tunnel/Publish.antt =====
-- What `publish` puts, against what a storage node takes in and what `establish` makes of it.
use dotminecraft.Prelude.{
  ℕ, ◌+◌, ◌≤◌, ◌≡◌, refl, sym, ap, Option, some, List, ◌∷◌, ◌++◌, length, All, Elem, filter_map, ok,
  arith,
}
use dotminecraft.Core.Text.{Str, Bytes}
use dotminecraft.Core.Consts.{max_record_bytes}
use dotminecraft.Core.Body.{Record, IsInRange}
use dotminecraft.Core.Crypto.{Crypto, IsSound}
use dotminecraft.Core.Identity.{Identity, public_bytes}
use dotminecraft.Core.Name.{Name, keyid_from_pubkey}
use dotminecraft.Core.Record.{sign, to_bytes, dht_key, from_bytes}
use dotminecraft.Core.Record.Verify.{IsFresh, from_bytes-to_bytes}
use dotminecraft.Core.Record.Select.{Trusted, select_verified_sound}
use dotminecraft.Core.Record.Storage.{authorizes-sign, select_verified-sign}
use dotminecraft.Net.Swarm.{Swarm, PeerId}
use dotminecraft.Net.Message.{DoctorInfo}
use dotminecraft.Net.Node.{validate_inbound_record}
use dotminecraft.Cli.Tunnel.{
  Attempt, max_skew, resolve_timeout, advertised_addrs, build_record, round_put, dialled,
  establish_from, establish,
}
use dotminecraft.Cli.Tunnel.Resolve.{Fruitless, resolve-perseveres, bind_peer_iff}

pub round_put-value :
    (c : Crypto) (id : Identity) (vanity peer_id : Str) (info : DoctorInfo) (ts : ℕ) (value : Bytes)
    → round_put c id vanity peer_id (ok info) ts ≡ some value
    → to_bytes c (build_record c id vanity peer_id (advertised_addrs info) ts) ≡ value
unfolding round_put
round_put-value c id vanity peer_id info ts value h = ground arith

length-dht_key : (c : Crypto) (sound : IsSound c) (keyid : Str) → length (dht_key c keyid) ≡ 32
unfolding dht_key
length-dht_key c sound keyid = sound.sha256-length _

-- The record fits its types and the size limit.
abbrev pub IsPublishable : Crypto → Record → Type 0
IsPublishable c r = IsInRange r × (length (to_bytes c r) ≤ max_record_bytes)

module _ (c : Crypto) (sound : IsSound c) {S : Type 0} (sw : Swarm S) (id : Identity) (n : ℕ)
    (vanity : Str) (info : DoctorInfo) (ts : ℕ) (value : Bytes) where
  -- What a round of the republishing task puts under the DHT key of one of the identity's keyids of
  -- length 1 to 52, if it fits its types and the size limit, is taken in by every storage node as the
  -- record that was built.
  pub round_put-validated :
      (peer_id : Str)
      → round_put c id vanity peer_id (ok info) ts ≡ some value
      → IsPublishable c (build_record c id vanity peer_id (advertised_addrs info) ts)
      → 1 ≤ n
      → n ≤ 52
      → (expires : Option ℕ)
      → validate_inbound_record c sw (record {
        key = dht_key c (keyid_from_pubkey c (public_bytes c id) n);
        value = value;
        expires = expires;
      })
        ≡ some (build_record c id vanity peer_id (advertised_addrs info) ts)
  unfolding validate_inbound_record build_record sign
  round_put-validated peer_id h (range, fits) lo hi expires =
      let rec = build_record c id vanity peer_id (advertised_addrs info) ts in
      let e = sym (round_put-value c id vanity peer_id info ts value h) in
      let read : from_bytes c value ≡ ok rec = rw e (from_bytes-to_bytes c rec sound range fits) in
      let mine = authorizes-sign c sound rec.body id n refl refl lo hi in
      ground (arith, read, mine, length-dht_key c sound (keyid_from_pubkey c (public_bytes c id) n))

  -- `connect` reaches the peer of the publisher: if what a round of the republishing task put is among what
  -- an attempt to resolve one of the identity's names brings, is fresh then, fits its types and the
  -- size limit, and is the only record there that verifies for the name, and the attempts before it
  -- brought nothing that verifies before the deadline, then `establish` gives the peer of the
  -- identity's key, and dials the advertised addresses that parse.
  pub establish-round_put :
      (peer : PeerId) (name : Name) (start : ℕ) (before after : List Attempt) (a : Attempt)
      (found : List Bytes)
      → round_put c id vanity (sw.peer_to_string peer) (ok info) ts ≡ some value
      → IsPublishable c
          (build_record c id vanity (sw.peer_to_string peer) (advertised_addrs info) ts)
      → sw.peer_id_from_ed25519 (public_bytes c id) ≡ ok peer
      → name.keyid ≡ keyid_from_pubkey c (public_bytes c id) n
      → All (Fruitless c name (start + resolve_timeout)) before
      → a.candidates ≡ ok found
      → Elem value found
      → IsFresh a.now max_skew
          (build_record c id vanity (sw.peer_to_string peer) (advertised_addrs info) ts)
      → ((b : Bytes) (r : Record)
          → Elem b found
          → Trusted c name.keyid a.now max_skew b r
          → r ≡ build_record c id vanity (sw.peer_to_string peer) (advertised_addrs info) ts)
      → establish sw c name start (before ++ a ∷ after)
        ≡ (some (ok peer), filter_map (dialled sw) (advertised_addrs info))
  unfolding build_record establish establish_from sign
  establish-round_put peer name start before after a found h (range, fits) self mine fruitless p m
        fresh only =
      let rec = build_record c id vanity (sw.peer_to_string peer) (advertised_addrs info) ts in
      let e = round_put-value c id vanity (sw.peer_to_string peer) info ts value h in
      let (r, selected, newer) =
        select_verified-sign c sound rec.body id n a.now max_skew found refl refl range fits fresh
          (rw e m) in
      let named = rw (sym mine) at selected in
      let (b, k, t) = (select_verified_sound c name.keyid a.now max_skew found r named).0 in
      let resolved = resolve-perseveres c name start before after a found r fruitless p named in
      rw (resolved, only b r k t)
        (ap (λ x. (some x.0, x.1)) ((bind_peer_iff sw rec peer _).1 (self, refl, refl)))
