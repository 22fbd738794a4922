-- ===== src/Tests/Sessions.antt =====
-- Tests of `publish` and `connect` of crates/cli/src/tunnel.rs as a whole.
use dotminecraft.Prelude.{
  ℕ, ◌+◌, ◌*◌, ◌≤◌, ◌<◌, ◌≡◌, ◌≢◌, refl, inl, inr, none, some, List, [], ◌∷◌, filter_map, replicate,
  lookup, nat_eq, ok, err, arith,
}
use dotminecraft.Core.Text.{Str, text}
use dotminecraft.Core.Body.{Record}
use dotminecraft.Core.Identity.{public_bytes, secret_bytes, name}
use dotminecraft.Core.Name.{
  Name, keyid_from_pubkey, from_pubkey, check_keyid_len, validate_vanity, to_string,
}
use dotminecraft.Core.Record.{dht_key, select_verified, verify}
use dotminecraft.Core.Record.Verify.{IsFresh}
use dotminecraft.Net.Setup.{
  default_config, listen_one, listen_all, start_listening, add_bootstrap, add_peers, reserve_relays,
  prepare,
}
use dotminecraft.Net.Message.{Event, inbound_put, Reply, found_record, finished}
use dotminecraft.Net.Handle.{await_records}
use dotminecraft.Net.Node.{Node, handle_kad_result}
use dotminecraft.Net.Node.Queries.{Progress, after_results}
use dotminecraft.Cli.Tunnel.{
  Attempt, Round, resolve, max_skew, advertised_addrs, build_record, round_value, round_end,
  republish, dialled,
}
use dotminecraft.Cli.Tunnel.Rounds.{Succeeds, AllFail, next_start, refresh-gap}
use dotminecraft.Cli.Tunnel.Sessions.{Publishing, spawn, publish_start, connect_peer}
use dotminecraft.Cli.Tunnel.Sessions.Meet.{DerivesOneKey, connect-publish}
use dotminecraft.Cli.Tunnel.Gathered.{resolve-gathered}
use dotminecraft.Tests.Toy.{toy, toy-IsSound}
use dotminecraft.Tests.ToyNet.{Store, toy_net, builder}
use dotminecraft.Net.Behaviour.{build_swarm, keypair_from_secret, new, toggle_mdns}
use dotminecraft.Tests.Records.{owner, keyid}
use dotminecraft.Tests.Nodes.{fresh}
use dotminecraft.Tests.Tunnels.{
  tunnelling, info, published, value, brings, round_put_test, published-IsPublishable, only,
}

unfoldable pub meeting : Unit {0}
unfolding tunnelling builder build_swarm keypair_from_secret new toggle_mdns public_bytes
    secret_bytes spawn publish_start listen_one listen_all start_listening add_bootstrap add_peers
    reserve_relays prepare name from_pubkey check_keyid_len validate_vanity round_value round_end
    republish
meeting = tt

-- The record reaches a node after an older event.
abbrev arrival : ℕ × ℕ × Event
arrival = (
  500,
  3,
  inbound_put (record {
    key = dht_key toy (keyid_from_pubkey toy (public_bytes toy owner) 26);
    value = value;
    expires = none;
  }),
)

-- A round that puts its record, and one whose report fails.
abbrev good : Round
good = record { info = ok info; gathering = 2; storing = 3; put_result = ok tt }

abbrev bad : Round
bad = record { info = err (text "gone"); gathering = 1; storing = 0; put_result = ok tt }

good-Succeeds : Succeeds toy owner [] owner.signing 998 good
unfolding meeting
good-Succeeds = (value, refl, refl)

bad-AllFail :
    AllFail toy owner [] owner.signing (round_end toy owner [] owner.signing 998 good) (bad ∷ [])
unfolding meeting
bad-AllFail = (inl refl, tt)

refresh-gap_example :
    (998 + 2 + 300 + 5 * 1 ≤ next_start toy owner [] owner.signing 998 (good ∷ bad ∷ []))
    × (next_start toy owner [] owner.signing 998 (good ∷ bad ∷ []) ≤ 998 + 2 + 300 + 5 * 1 + 2 * 5)
    × ((addrs : List Str) (keyid : Str) (now : ℕ)
        → 998 + 2 + 300 < now
        → verify toy (build_record toy owner [] owner.signing addrs 1000) keyid now max_skew
          ≢ ok tt)
refresh-gap_example =
    refresh-gap toy owner [] owner.signing toy-IsSound 5 998 good (bad ∷ []) good-Succeeds
      bad-AllFail (omega arith, (omega arith, tt))

republish_test :
    republish toy owner [] owner.signing 998 (good ∷ bad ∷ [])
    ≡ (1000, some value) ∷ (1304, none) ∷ []
unfolding meeting
republish_test = refl

abbrev at_hand : Publishing Store
at_hand = record {
  swarm = [];
  keyid = keyid;
  name = record { vanity = []; keyid = keyid };
  dk = dht_key toy keyid;
  peer = owner.signing;
  peer_id = owner.signing;
}

starts : publish_start toy_net builder toy owner default_config 16 [] ≡ ok at_hand
unfolding meeting
starts = refl

up : spawn toy_net builder (replicate 32 9) default_config ≡ ok ([], replicate 32 9)
unfolding meeting
up = refl

same_key : DerivesOneKey toy toy-IsSound toy_net builder
unfolding meeting
same_key id key e = e

nothing : select_verified toy ([] ∷ []) keyid 1100 300 ≡ none
unfolding meeting
nothing = refl

still-IsFresh : IsFresh 1100 max_skew published
unfolding meeting
still-IsFresh = (omega arith, omega arith)

connect-publish_example :
    connect_peer toy_net builder toy
      (replicate 32 9)
      default_config
      (to_string at_hand.name)
      0
      (brings ([] ∷ []) 100 ∷ brings (value ∷ []) 46000 ∷ [])
    ≡ (some (ok owner.signing), filter_map (dialled toy_net) (advertised_addrs info))
connect-publish_example =
    connect-publish toy toy-IsSound toy_net builder builder owner (replicate 32 9) default_config
      default_config 16 1000 0 [] at_hand ([], replicate 32 9) info value
      (brings ([] ∷ []) 100 ∷ []) [] (brings (value ∷ []) 46000) (value ∷ []) same_key starts
      round_put_test published-IsPublishable up (([] ∷ [], refl, nothing, omega arith), tt) refl
      (inl refl) still-IsFresh only

-- A node whose get waits; junk comes for it, and then the record.
abbrev waiting : Node Store
waiting = record fresh { pending_get = (3, (7, [])) ∷ [] }

abbrev coming : List Progress
coming = (4, finished) ∷ (3, found_record (9 ∷ [])) ∷ (3, found_record value) ∷ []

abbrev replied : List Reply
replied = (handle_kad_result toy toy_net (after_results toy toy_net waiting coming) 3 finished).1

abbrev attempt : Attempt
attempt = record { candidates = await_records 7 replied; now = 1100; instant = 200 }

is_waiting : lookup 3 waiting.pending_get ≡ some (7, [])
unfolding lookup
is_waiting = refl

abbrev home : Name
home = record { vanity = text "home"; keyid = keyid }

mine : keyid ≡ keyid_from_pubkey toy (public_bytes toy owner) 16
unfolding meeting
mine = refl

resolve-gathered_example :
    (r : Record) × (resolve toy home 0 (brings ([] ∷ []) 100 ∷ attempt ∷ []) ≡ some (ok r))
    × (1000 ≤ r.body.ts)
resolve-gathered_example =
    resolve-gathered toy toy-IsSound toy_net owner 16 [] owner.signing info 1000 value waiting 3 7
      coming finished home 0 (brings ([] ∷ []) 100 ∷ []) [] attempt round_put_test
      published-IsPublishable is_waiting (ground arith) refl (inr (inr (inl refl))) refl mine
      still-IsFresh (([] ∷ [], refl, nothing, omega arith), tt)
