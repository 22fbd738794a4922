-- ===== src/Net/Node.antt =====
-- The network task of crates/net/src/node.rs: its state, the commands of the other tasks and the
-- events of the swarm. A reply on a oneshot channel is an output; the sender is named by a number.
-- The clocks are arguments: the unix time for the freshness of records, and the `Instant`, in
-- seconds, for their expiry.
pub mod Inbound
pub mod Register
pub mod Queries
pub mod Waiters
pub mod Peers
use dotminecraft.Prelude.{
  ℕ, ◌+◌, ◌-◌, ◌^◌, ◌%◌, min, leb, ltb, ◌==◌, Bool, true, false, not, any, Option, none, some, List,
  [], ◌∷◌, ◌++◌, map, length, is_empty, seq_eq, if◌then◌else◌, Map, lookup, insert, remove, nat_eq,
  sequence_eq, Result, ok, err,
}
use dotminecraft.Core.Text.{Str, Bytes, text}
use dotminecraft.Core.Consts.{max_record_bytes}
use dotminecraft.Core.Body.{Record}
use dotminecraft.Core.Crypto.{Crypto}
use dotminecraft.Core.Record.{from_bytes, authorizes_storage_key}
use dotminecraft.Net.Message.{
  Waiter, DoctorInfo, Command, put_record, get_record, dial, doctor, Reply, done, records, report,
  KadResult, put_result, found_record, finished, get_failed, other_result, Event, ping,
  connection_closed, external_addr_confirmed, identified, mdns_discovered, query_progressed,
  inbound_put, other_event, Input, command, event,
}
use dotminecraft.Net.Swarm.{
  Swarm, PeerId, QueryId, Multiaddr, Protocol, p2p, p2p_circuit, other, KadRecord,
}

abbrev pub max_future_skew : ℕ
max_future_skew = 600

pub record Node (S : Type 0) : Type 0 where
  pub swarm : S
  pub pending_put : Map QueryId Waiter
  pub pending_get : Map QueryId (Waiter × List Bytes)
  pub external_addrs : List Multiaddr
  pub rtt : Map PeerId ℕ

-- Equality of addresses, for `external_addrs.contains`.
unfoldable pub protocol_eq : Protocol → Protocol → Bool
protocol_eq (p2p a) (p2p b) = seq_eq a b
protocol_eq p2p_circuit p2p_circuit = true
protocol_eq (other a) (other b) = seq_eq a b
protocol_eq _ _ = false

unfoldable pub addr_eq : Multiaddr → Multiaddr → Bool
unfolding protocol_eq
addr_eq [] [] = true
addr_eq (p ∷ a) (q ∷ b) = if protocol_eq p q then addr_eq a b else false
addr_eq _ _ = false

-- `ts.saturating_add(..)` on u64.
abbrev pub saturating_add : ℕ → ℕ → ℕ
saturating_add a b = min (a + b) (2 ^ 64 - 1)

-- Replies to the waiter of a query that has ended, if there is one.
abbrev pub answer_put : Option Waiter → Result Str (Unit {0}) → List Reply
answer_put none res = []
answer_put (some resp) res = done resp res ∷ []

abbrev pub answer_get : Option (Waiter × List Bytes) → List Reply
answer_get none = []
answer_get (some (resp, acc)) = records resp acc ∷ []

abbrev pub push_record :
    Option (Waiter × List Bytes)
    → QueryId
    → Bytes
    → Map QueryId (Waiter × List Bytes)
    → Map QueryId (Waiter × List Bytes)
push_record none id value m = m
push_record (some (resp, acc)) id value m = insert id (resp, acc ++ value ∷ []) m

module _ {S : Type 0} where
  -- `NetHandle::rtt_ms`
  unfoldable pub rtt_ms : Node S → PeerId → Option ℕ
  rtt_ms n peer = lookup peer n.rtt

module _ (c : Crypto) {S : Type 0} (sw : Swarm S) where
  unfoldable pub validate_inbound_record : KadRecord → Option Record
  validate_inbound_record r =
      if not (length r.key == 32) then none else elim (from_bytes c r.value) [
        | err e ↦ none
        | ok rec ↦ if authorizes_storage_key c rec r.key then some rec else none
      ]

  unfoldable pub is_newer_than_stored : S → Bytes → ℕ → Bool
  is_newer_than_stored s key ts = elim (sw.store_get key s) [
    | none ↦ true
    | some existing ↦ elim (from_bytes c existing) [ err e ↦ true | ok r ↦ ltb r.body.ts ts ]
  ]

  -- The arm of `handle_event` for an inbound record.
  unfoldable pub store_inbound : ℕ → ℕ → KadRecord → Option Record → S → S
  store_inbound now instant r none s = s
  store_inbound now instant r (some rec) s =
      if ltb (saturating_add now max_future_skew) rec.body.ts
      then s
      else if is_newer_than_stored s r.key rec.body.ts
      then sw.store_put (record r { expires = some (instant + rec.body.ttl) }) s
      else s

  -- `.ok().map(|r| Instant::now() + ttl)`
  abbrev pub expiry : ℕ → Bytes → Option ℕ
  expiry instant value = elim (from_bytes c value) [
    | err e ↦ none
    | ok r ↦ some (instant + r.body.ttl)
  ]

  -- What `kad.put_record` gave.
  abbrev pub await_put : Node S → Waiter → S × Result Str QueryId → Node S × List Reply
  await_put n resp (s, ok qid) =
      (record n { swarm = s; pending_put = insert qid resp n.pending_put }, [])
  await_put n resp (s, err e) = (record n { swarm = s }, done resp (err e) ∷ [])

  unfoldable pub handle_command : ℕ → Node S → Command → Node S × List Reply
  handle_command instant n (put_record key value resp) =
      let r : KadRecord = record { key = key; value = value; expires = expiry instant value } in
      await_put n resp (sw.put_record r n.swarm)
  handle_command instant n (get_record key resp) =
      let (s, qid) = sw.get_record key n.swarm in
      (record n { swarm = s; pending_get = insert qid (resp, []) n.pending_get }, [])
  handle_command instant n (dial addr resp) =
      let (s, r) = sw.dial addr n.swarm in (record n { swarm = s }, done resp r ∷ [])
  handle_command instant n (doctor resp) = (
    n,
    report resp (record {
      peer_id = sw.peer_to_string (sw.local_peer_id n.swarm);
      listen_addrs = map sw.addr_to_string (sw.listeners n.swarm);
      external_addrs = map sw.addr_to_string n.external_addrs;
      connected_peers = sw.connected_peers n.swarm;
      nat_status = sw.nat_status n.swarm;
    })
        ∷ [],
  )

  unfoldable pub handle_kad_result : Node S → QueryId → KadResult → Node S × List Reply
  handle_kad_result n id (put_result res) =
      (record n { pending_put = remove id n.pending_put }, answer_put (lookup id n.pending_put) res)
  handle_kad_result n id (found_record value) = (
    (if leb (length value) max_record_bytes
        then record n { pending_get = push_record (lookup id n.pending_get) id value n.pending_get }
        else n),
    [],
  )
  handle_kad_result n id finished =
      (record n { pending_get = remove id n.pending_get }, answer_get (lookup id n.pending_get))
  handle_kad_result n id (get_failed e) =
      (record n { pending_get = remove id n.pending_get }, answer_get (lookup id n.pending_get))
  handle_kad_result n id other_result = (n, [])

  unfoldable pub add_addresses : PeerId → List Multiaddr → S → S
  add_addresses peer [] s = s
  add_addresses peer (addr ∷ addrs) s = add_addresses peer addrs (sw.add_address peer addr s)

  unfoldable pub meet_peers : List (PeerId × Multiaddr) → S → S
  meet_peers [] s = s
  meet_peers ((peer, addr) ∷ list) s = meet_peers list (sw.dial addr (sw.add_address peer addr s)).0

  unfoldable pub handle_event : ℕ → ℕ → Node S → Event → Node S × List Reply
  unfolding store_inbound add_addresses meet_peers addr_eq
  handle_event now instant n (ping peer millis) =
      (record n { rtt = insert peer (millis % 2 ^ 64) n.rtt }, [])
  handle_event now instant n (connection_closed peer num_established) =
      (if num_established == 0 then record n { rtt = remove peer n.rtt } else n, [])
  handle_event now instant n (external_addr_confirmed addr) = (
    (if any (addr_eq addr) n.external_addrs
        then n
        else record n { external_addrs = n.external_addrs ++ addr ∷ [] }),
    [],
  )
  handle_event now instant n (identified peer addrs) =
      (record n { swarm = add_addresses peer addrs n.swarm }, [])
  handle_event now instant n (mdns_discovered list) =
      (record n { swarm = meet_peers list n.swarm }, [])
  handle_event now instant n (query_progressed id result) = handle_kad_result n id result
  handle_event now instant n (inbound_put r) =
      (record n { swarm = store_inbound now instant r (validate_inbound_record r) n.swarm }, [])
  handle_event now instant n other_event = (n, [])

  unfoldable pub turn : Node S → Input → Node S × List Reply
  unfolding handle_command handle_event
  turn n (command instant cmd) = handle_command instant n cmd
  turn n (event now instant e) = handle_event now instant n e

  -- The task as its loop begins.
  unfoldable pub new_node : S → Node S
  new_node s = record {
    swarm = s;
    pending_put = [];
    pending_get = [];
    external_addrs = [];
    rtt = [];
  }

  unfoldable pub event_loop : Node S → List Input → Node S × List Reply
  event_loop n [] = (n, [])
  event_loop n (i ∷ inputs) =
      let (n', replies) = turn n i in
      let (last, later) = event_loop n' inputs in (last, replies ++ later)
