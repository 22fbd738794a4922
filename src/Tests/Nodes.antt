-- ===== src/Tests/Nodes.antt =====
-- Tests of crates/net/src/node.rs.
use mathlib.Core.List.Perm
use dotminecraft.Prelude.{
  ℕ, ◌+◌, ◌≡◌, refl, none, some, List, [], ◌∷◌, lookup, insert, nat_eq, sequence_eq, arith,
}
use dotminecraft.Core.Text.{Bytes}
use dotminecraft.Core.Body.{Record}
use dotminecraft.Core.Record.{dht_key, to_bytes}
use dotminecraft.Net.Message.{
  Input, command, event, get_record, Event, query_progressed, inbound_put, found_record, finished,
}
use dotminecraft.Net.Node.{
  Node, event_loop, new_node, turn, handle_command, validate_inbound_record, is_newer_than_stored,
  handle_event, handle_kad_result, rtt_ms,
}
use dotminecraft.Net.Node.Inbound.{
  Change, IsOwned, HoldsFrom, after_events, handle_event-Change, after_events-IsOwned,
}
use dotminecraft.Net.Node.Queries.{Progress, after_results}
use dotminecraft.Tests.Toy.{toy}
use dotminecraft.Net.Node.Register.{held}
use dotminecraft.Net.Node.Waiters.{waits, asked, answered}
use dotminecraft.Net.Node.Waiters.Settled.{new_node-waits}
use dotminecraft.Tests.ToyNet.{
  Store, toy_net, toy_net-KeepsStore, counting_net, counting_net-IssuesIds,
}
use dotminecraft.Tests.Records.{rec, late, keyid, recording}

noding : Unit {0}
unfolding toy_net recording validate_inbound_record is_newer_than_stored handle_event
    handle_kad_result rtt_ms after_events after_results lookup insert
noding = tt

abbrev pub fresh : Node Store
fresh = record { swarm = []; pending_put = []; pending_get = []; external_addrs = []; rtt = [] }

abbrev key : Bytes
key = dht_key toy keyid

abbrev sends : Record → Event
sends r = inbound_put (record { key = key; value = to_bytes toy r; expires = none })

-- A record is stored, a replayed older one is not, nor is one from the future.
inbound_tests :
    (lookup key (after_events toy toy_net fresh ((1000, 0, sends rec) ∷ [])).swarm
      ≡ some (to_bytes toy rec))
    × (lookup key
          (after_events toy toy_net fresh ((1000, 0, sends late) ∷ (1001, 1, sends rec) ∷ [])).swarm
        ≡ some (to_bytes toy late))
    × (lookup key (after_events toy toy_net fresh ((499, 0, sends late) ∷ [])).swarm ≡ none)
unfolding noding
inbound_tests = (refl, refl, refl)

handle_event-Change_example :
    Change toy toy_net 1000 key fresh.swarm
      (handle_event toy toy_net 1000 0 fresh (sends rec)).0.swarm
handle_event-Change_example =
    handle_event-Change toy toy_net toy_net-KeepsStore 1000 0 fresh (sends rec) key

fresh-IsOwned : IsOwned toy toy_net fresh.swarm
unfolding noding
fresh-IsOwned k value h = cc

after_events-IsOwned_example :
    IsOwned toy toy_net (after_events toy toy_net fresh ((1000, 0, sends rec) ∷ [])).swarm
after_events-IsOwned_example =
    after_events-IsOwned toy toy_net toy_net-KeepsStore fresh ((1000, 0, sends rec) ∷ [])
      fresh-IsOwned

abbrev holding : Node Store
holding = record fresh { swarm = (key, to_bytes toy late) ∷ [] }

holding-HoldsFrom : HoldsFrom toy toy_net holding.swarm key 1100
unfolding noding
holding-HoldsFrom = (to_bytes toy late, late, refl, refl, omega arith)

abbrev gathering : Node Store
gathering = record fresh { pending_get = (3, (7, [])) ∷ [] }

abbrev results : List Progress
results = (3, found_record (1 ∷ [])) ∷ (4, finished) ∷ (3, found_record (2 ∷ [])) ∷ []

waiting : lookup 3 gathering.pending_get ≡ some (7, [])
unfolding lookup
waiting = refl

abbrev offers : List (ℕ × ℕ × Event)
offers = (1000, 0, sends rec) ∷ (1001, 1, sends late) ∷ []

register_test : held toy toy_net key (after_events toy toy_net fresh offers).swarm ≡ some late
unfolding noding
register_test = refl

-- The same records in the other order, and later.
abbrev reordered : List (ℕ × ℕ × Event)
reordered = (1003, 2, sends late) ∷ (1010, 9, sends rec) ∷ []

-- A caller asks twice, and its first query ends.
abbrev turns : List Input
turns =
    command 0 (get_record key 7)
    ∷ command 0 (get_record key 7)
    ∷ event 0 0 (query_progressed 4 finished)
    ∷ []

waits_test :
    (waits 7 (event_loop toy counting_net (new_node toy counting_net 4) turns).0 ≡ 1)
    × (answered 7 (event_loop toy counting_net (new_node toy counting_net 4) turns).1 ≡ 1)
unfolding noding counting_net new_node event_loop turn handle_command
waits_test = (refl, refl)

new_node-waits_example :
    waits 7 (event_loop toy counting_net (new_node toy counting_net 4) turns).0
      + answered 7 (event_loop toy counting_net (new_node toy counting_net 4) turns).1
    ≡ asked 7 turns
new_node-waits_example = new_node-waits toy counting_net counting_net-IssuesIds 7 4 turns
