-- ===== src/Tests/Tunnels.antt =====
-- Tests of crates/cli/src/tunnel.rs.
use dotminecraft.Prelude.{
  ap, subst, ◌≤◌, sym, ◌∙◌, ok-injective, ℕ, zero, suc, ◌+◌, ◌≡◌, refl, inl, inr, true, false, none,
  some, List, [], ◌∷◌, Elem, filter_map, ok, Result, arith,
}
use dotminecraft.Core.Text.{Str, Bytes, text}
use dotminecraft.Core.Body.{Record}
use dotminecraft.Core.Name.{Name}
use dotminecraft.Core.Record.{from_bytes, to_bytes}
use dotminecraft.Core.Record.Verify.{from_bytes-to_bytes}
use dotminecraft.Core.Record.Select.{Trusted}
use dotminecraft.Net.Swarm.{other}
use dotminecraft.Net.Message.{DoctorInfo}
use dotminecraft.Cli.Tunnel.{
  Attempt, NetOpts, advertised_addrs, build_record, round_put, resolve, dialled, establish,
  net_config, filter_dialable, sort, dedup, str_leb,
}
use dotminecraft.Cli.Tunnel.Resolve.{Gave, Bound, resolve-ends, establish_sound}
use dotminecraft.Cli.Tunnel.Publish.{IsPublishable}
use dotminecraft.Cli.Tunnel.Secure.{Arrived, IsUnforged, establish-owned}
use dotminecraft.Core.Identity.{public_bytes}
use dotminecraft.Tests.Toy.{toy, toy-IsSound}
use dotminecraft.Tests.ToyNet.{toy_net}
use dotminecraft.Tests.Records.{recording, owner, keyid}

unfoldable pub tunnelling : Unit {0}
unfolding recording advertised_addrs build_record round_put resolve dialled establish net_config
    filter_dialable sort dedup str_leb toy_net
tunnelling = tt

abbrev pub info : DoctorInfo
info = record {
  peer_id = owner.signing;
  listen_addrs =
      text "/ip4/10.0.0.2/tcp/1" ∷ text "/ip4/0.0.0.0/tcp/1" ∷ text "/ip4/10.0.0.1/tcp/1" ∷ [];
  external_addrs = text "/ip4/10.0.0.2/tcp/1" ∷ text "/ip6/::/tcp/1" ∷ [];
  connected_peers = 0;
  nat_status = [];
}

abbrev pub addrs : List Str
addrs = text "/ip4/10.0.0.1/tcp/1" ∷ text "/ip4/10.0.0.2/tcp/1" ∷ []

addrs_test : advertised_addrs info ≡ addrs
unfolding tunnelling
addrs_test = refl

abbrev pub published : Record
published = build_record toy owner [] owner.signing (advertised_addrs info) 1000

abbrev pub value : Bytes
value = to_bytes toy published

pub round_put_test : round_put toy owner [] owner.signing (ok info) 1000 ≡ some value
unfolding tunnelling
round_put_test = refl

pub published-IsPublishable : IsPublishable toy published
unfolding tunnelling
published-IsPublishable = (
  record {
    version = omega arith;
    pubkey_length = refl;
    pubkey_bytes = omega arith;
    time = omega arith;
    validity = omega arith;
    sig_length = refl;
    sig_bytes = omega arith;
  },
  omega arith,
)

abbrev pub name : Name
name = record { vanity = text "home"; keyid = keyid }

abbrev pub brings : List Bytes → ℕ → Attempt
brings found instant = record { candidates = ok found; now = 1100; instant = instant }

pub only :
    (b : Bytes) (r : Record) → Elem b (value ∷ []) → Trusted toy keyid 1100 300 b r → r ≡ published
only b r (inl e) (read, verified) =
    let own : from_bytes toy value ≡ ok published =
      from_bytes-to_bytes toy published toy-IsSound published-IsPublishable.0
        published-IsPublishable.1 in
    cc (e, own, read)
only b r (inr m) t = absurd m

abbrev pub tries : List Attempt
tries = brings ([] ∷ []) 100 ∷ brings (value ∷ []) 46000 ∷ []

pub established :
    establish toy_net toy name 0 tries
    ≡ (some (ok owner.signing), filter_map (dialled toy_net) addrs)
unfolding tunnelling
established = refl

establish_sound_example :
    (r : Record) × ((a : Attempt) × Elem a tries × Gave toy name a r)
    × Bound toy_net r owner.signing (filter_map (dialled toy_net) addrs)
establish_sound_example =
    establish_sound toy_net toy name 0 tries owner.signing (filter_map (dialled toy_net) addrs)
      established

-- Attempts that bring nothing, two seconds apart.
abbrev waits : ℕ → ℕ → List Attempt
waits zero instant = []
waits (suc n) instant = brings [] instant ∷ waits n (instant + 2000)

resolve-ends_example : (res : Result Str Record) × (resolve toy name 0 (waits 24 0) ≡ some res)
resolve-ends_example = resolve-ends toy name 0 (waits 24 0) (omega arith) (omega arith)

still_waiting : resolve toy name 0 (waits 23 0) ≡ none
unfolding tunnelling
still_waiting = refl

abbrev opts : NetOpts
opts = record {
  bootstrap = text "a" ∷ [];
  relays = [];
  use_ipfs_dht = false;
  enable_mdns = true;
  reserve = true;
  relay_server = false;
}

net_config_test :
    net_config toy_net opts
    ≡ ok (record {
      bootstrap = (other (text "a") ∷ []) ∷ [];
      listen = [];
      reserve_relays = (other (text "a") ∷ []) ∷ [];
      relay_server = false;
      enable_mdns = true;
    })
unfolding tunnelling
net_config_test = refl

single :
    (a : Attempt) (b' b : Bytes) (found : List Bytes)
    → a.candidates ≡ ok (b' ∷ [])
    → a.candidates ≡ ok found
    → Elem b found
    → b ≡ b'
single a b' b found brought e k = elim (subst (Elem b) (ok-injective (sym e ∙ brought)) k) [
  | inl same ↦ same
  | inr x ↦ absurd x
]

empty-unread : (r : Record) → from_bytes toy [] ≡ ok r → ⊥
unfolding tunnelling
empty-unread r h = cc

Arrived-published : (r : Record) → Arrived toy tries r → r ≡ published
Arrived-published r (a, inl m, (found, e, (b, k, read))) =
    let same = single a [] b found (ap (λ x. x.candidates) m) e k in
    absurd (empty-unread r (rw same at read))
Arrived-published r (a, inr (inl m), (found, e, (b, k, read))) =
    let same = single a value b found (ap (λ x. x.candidates) m) e k in
    let own =
      from_bytes-to_bytes toy published toy-IsSound published-IsPublishable.0
        published-IsPublishable.1 in
    ok-injective (sym (rw same at read) ∙ own)
Arrived-published r (a, inr (inr m), came) = absurd m

published-owned : published.body.pubkey ≡ public_bytes toy owner
unfolding tunnelling
published-owned = refl

pub unforged : IsUnforged toy owner [] owner.signing name.keyid ((info, 1000) ∷ []) tries
unforged = record {
  no_second_key =
      λ r came binds. ap (λ x. x.body.pubkey) (Arrived-published r came) ∙ published-owned;
  no_forgery =
      λ r came own signed. ((info, 1000), inl refl, ap (λ x. x.body) (Arrived-published r came));
}

establish-owned_example :
    (toy_net.peer_id_from_ed25519 (public_bytes toy owner) ≡ ok owner.signing)
    × ((i : DoctorInfo) × (ts : ℕ) × Elem {A = DoctorInfo × ℕ} (i, ts) ((info, 1000) ∷ [])
        × (filter_map (dialled toy_net) addrs ≡ filter_map (dialled toy_net) (advertised_addrs i))
        × ((a : Attempt) × Elem a tries × (ts ≤ a.now + 300) × (a.now ≤ ts + 300)))
establish-owned_example =
    establish-owned toy owner [] owner.signing toy-IsSound toy_net name ((info, 1000) ∷ []) 0 tries
      owner.signing (filter_map (dialled toy_net) addrs) unforged established
