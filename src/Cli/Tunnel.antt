-- ===== src/Cli/Tunnel.antt =====
-- crates/cli/src/tunnel.rs: what `publish` puts into the DHT and how `connect` resolves a name and
-- establishes a peer. Clocks are arguments: the unix time in seconds, and the `Instant` in
-- milliseconds. What the handle's calls return is an argument too.
pub mod Addrs
pub mod Resolve
pub mod Publish
pub mod Stored
pub mod Rounds
pub mod Sessions
pub mod Gathered
pub mod Secure
use dotminecraft.Prelude.{
  ℕ, ◌+◌, ◌/◌, ◌*◌, ltb, leb, ◌==◌, Bool, not, ◌&&◌, ◌||◌, true, false, Option, none, some, List,
  [], ◌∷◌, ◌++◌, filter_map, is_empty, seq_eq, if◌then◌else◌, Result, ok, err, ◌>>=◌,
}
use dotminecraft.Core.Text.{Str, Bytes, text}
use dotminecraft.Core.Consts.{record_version}
use dotminecraft.Core.Body.{RecordBody, Record}
use dotminecraft.Core.Crypto.{Crypto}
use dotminecraft.Core.Identity.{Identity, public_bytes}
use dotminecraft.Core.Name.{Name}
use dotminecraft.Core.Record.{sign, to_bytes, dht_key, select_verified}
use dotminecraft.Net.Swarm.{Swarm, PeerId, Multiaddr}
use dotminecraft.Net.Setup.{NetConfig}
use dotminecraft.Net.Message.{DoctorInfo}

abbrev pub record_ttl : ℕ
record_ttl = 600

abbrev pub max_skew : ℕ
max_skew = 300

abbrev pub resolve_timeout : ℕ
resolve_timeout = 45000

abbrev pub retry : ℕ
retry = 5

abbrev pub refresh : ℕ
refresh = record_ttl / 2

pub record NetOpts : Type 0 where
  pub bootstrap : List Str
  pub relays : List Str
  pub use_ipfs_dht : Bool
  pub enable_mdns : Bool
  pub reserve : Bool
  pub relay_server : Bool

-- `str::starts_with` and `str::contains`.
unfoldable pub starts_with : Str → Str → Bool
starts_with [] s = true
starts_with (c ∷ p) [] = false
starts_with (c ∷ p) (d ∷ s) = (c == d) && starts_with p s

unfoldable pub contains : Str → Str → Bool
unfolding starts_with
contains p [] = starts_with p []
contains p (d ∷ s) = starts_with p (d ∷ s) || contains p s

-- The closure of the `filter`.
unfoldable pub is_dialable : Str → Bool
unfolding contains
is_dialable a = not (contains (text "/0.0.0.0/") a) && not (contains (text "/::/") a)

unfoldable pub filter_dialable : List Str → List Str
unfolding is_dialable
filter_dialable [] = []
filter_dialable (a ∷ addrs) =
    let rest = filter_dialable addrs in if is_dialable a then a ∷ rest else rest

-- The order of `str`, by code points, and `Vec::sort`.
unfoldable pub str_leb : Str → Str → Bool
str_leb [] b = true
str_leb (x ∷ a) [] = false
str_leb (x ∷ a) (y ∷ b) = ltb x y || ((x == y) && str_leb a b)

unfoldable pub place : Str → List Str → List Str
place a [] = a ∷ []
place a (b ∷ bs) = let rest = place a bs in if str_leb a b then a ∷ b ∷ bs else b ∷ rest

unfoldable pub sort : List Str → List Str
unfolding place
sort [] = []
sort (a ∷ addrs) = place a (sort addrs)

-- `Vec::dedup`: of equal neighbours the first stays.
unfoldable pub dedup_after : Str → List Str → List Str
dedup_after a [] = []
dedup_after a (b ∷ bs) =
    let skipped = dedup_after a bs in
    let kept = dedup_after b bs in if seq_eq a b then skipped else b ∷ kept

unfoldable pub dedup : List Str → List Str
unfolding dedup_after
dedup [] = []
dedup (a ∷ addrs) = a ∷ dedup_after a addrs

unfoldable pub advertised_addrs : DoctorInfo → List Str
unfolding filter_dialable sort dedup
advertised_addrs info = dedup (sort (filter_dialable (info.listen_addrs ++ info.external_addrs)))

-- One round of the republishing task: what `doctor` returned and how many seconds that took, what
-- `put_record` returned and how many seconds that took.
pub record Round : Type 0 where
  pub info : Result Str DoctorInfo
  pub gathering : ℕ
  pub put_result : Result Str (Unit {0})
  pub storing : ℕ

-- One turn of the loop of `resolve`: what `get_record` returned, the unix time then, and the
-- `Instant` that is held against the deadline.
pub record Attempt : Type 0 where
  pub candidates : Result Str (List Bytes)
  pub now : ℕ
  pub instant : ℕ

module _ (c : Crypto) where
  unfoldable pub build_record : Identity → Str → Str → List Str → ℕ → Record
  build_record identity vanity peer_id addrs now =
      sign c
        (record {
          v = record_version;
          pubkey = public_bytes c identity;
          peer_id = peer_id;
          addrs = addrs;
          vanity = vanity;
          ts = now;
          ttl = record_ttl;
        })
        identity

  -- One turn of the loop of the republishing task: the value that it puts, if it puts one.
  unfoldable pub round_put : Identity → Str → Str → Result Str DoctorInfo → ℕ → Option Bytes
  round_put signer vanity peer_id (err e) now = none
  round_put signer vanity peer_id (ok info) now =
      let addrs = advertised_addrs info in
      if not (is_empty addrs)
      then some (to_bytes c (build_record signer vanity peer_id addrs now))
      else none

  -- The seconds that it then sleeps, from what was put and what `put_record` returned.
  unfoldable pub round_delay : Option Bytes → Result Str (Unit {0}) → ℕ
  round_delay none res = retry
  round_delay (some value) (ok _) = refresh
  round_delay (some value) (err e) = retry

  -- The loop over the rounds made so far, the first of which begins at `start`: what each puts, if it
  -- puts something, with the unix time then.
  unfoldable pub round_value : Identity → Str → Str → ℕ → Round → Option Bytes
  unfolding round_put
  round_value signer vanity peer_id start r =
      round_put signer vanity peer_id r.info (start + r.gathering)

  unfoldable pub round_end : Identity → Str → Str → ℕ → Round → ℕ
  unfolding round_value round_delay
  round_end signer vanity peer_id start r =
      start
      + r.gathering
      + r.storing
      + round_delay (round_value signer vanity peer_id start r) r.put_result

  unfoldable pub republish : Identity → Str → Str → ℕ → List Round → List (ℕ × Option Bytes)
  unfolding round_end
  republish signer vanity peer_id start [] = []
  republish signer vanity peer_id start (r ∷ rounds) =
      (start + r.gathering, round_value signer vanity peer_id start r)
      ∷ republish signer vanity peer_id (round_end signer vanity peer_id start r) rounds

  -- The loop of `resolve` over the attempts made so far; `none` while it has not returned.
  unfoldable pub resolve_until : Name → ℕ → List Attempt → Option (Result Str Record)
  resolve_until name deadline [] = none
  resolve_until name deadline (a ∷ attempts) =
      let rest = resolve_until name deadline attempts in
      elim a.candidates [
        | err e ↦ some (err e)
        | ok found ↦ elim (select_verified c found name.keyid a.now max_skew) [
          | some rec ↦ some (ok rec)
          | none ↦ if leb deadline a.instant then some (err (text "could not resolve")) else rest
        ]
      ]

  unfoldable pub resolve : Name → ℕ → List Attempt → Option (Result Str Record)
  unfolding resolve_until
  resolve name start attempts = resolve_until name (start + resolve_timeout) attempts

module _ {S : Type 0} (sw : Swarm S) where
  unfoldable pub parse_addrs : List Str → Result Str (List Multiaddr)
  parse_addrs [] = ok []
  parse_addrs (s ∷ strs) = do
    addr ← sw.parse_multiaddr s
    addrs ← parse_addrs strs
    ok (addr ∷ addrs)

  unfoldable pub net_config : NetOpts → Result Str NetConfig
  unfolding parse_addrs
  net_config opts = do
    bootstrap ← parse_addrs opts.bootstrap
    reserve_relays ←
        (if not opts.reserve
          then ok []
          else if is_empty opts.relays
          then ok bootstrap
          else parse_addrs opts.relays)
    ok (record {
      bootstrap = bootstrap;
      listen = [];
      reserve_relays = reserve_relays;
      relay_server = opts.relay_server;
      enable_mdns = opts.enable_mdns;
    })

  -- `net::parse_multiaddr(a)` where it succeeds.
  unfoldable pub dialled : Str → Option Multiaddr
  dialled a = elim (sw.parse_multiaddr a) [ ok addr ↦ some addr | err e ↦ none ]

  -- `establish` from the record that was resolved and the peer of its key: its result, and the
  -- addresses that it dials.
  unfoldable pub bind_to : Record → Result Str PeerId → Result Str PeerId × List Multiaddr
  unfolding dialled
  bind_to rec (err e) = (err e, [])
  bind_to rec (ok peer) =
      if not (seq_eq (sw.peer_to_string peer) rec.body.peer_id)
      then (err (text "record peer_id does not match"), [])
      else (ok peer, filter_map dialled rec.body.addrs)

  unfoldable pub bind_peer : Record → Result Str PeerId × List Multiaddr
  unfolding bind_to
  bind_peer rec = bind_to rec (sw.peer_id_from_ed25519 rec.body.pubkey)

  unfoldable pub establish_from :
      Option (Result Str Record) → Option (Result Str PeerId) × List Multiaddr
  unfolding bind_peer
  establish_from none = (none, [])
  establish_from (some (err e)) = (some (err e), [])
  establish_from (some (ok rec)) = let (peer, addrs) = bind_peer rec in (some peer, addrs)

  unfoldable pub establish :
      Crypto → Name → ℕ → List Attempt → Option (Result Str PeerId) × List Multiaddr
  unfolding establish_from
  establish c name start attempts = establish_from (resolve c name start attempts)
