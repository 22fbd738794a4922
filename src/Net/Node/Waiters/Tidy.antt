-- ===== src/Net/Node/Waiters/Tidy.antt =====
-- The ids of the queries in the network task of crates/net/src/node.rs keep its entries apart.
use dotminecraft.Prelude.{
  ℕ, ◌+◌, ◌≤◌, ◌<◌, ◌≡◌, inl, inr, refl, sym, length, leb, Option, none, some, List, [], ◌∷◌,
  All-map, arith, Bool-cases, lookup, insert, remove, nat_eq, Map,
}
use dotminecraft.Core.Text.{Bytes}
use dotminecraft.Core.Consts.{max_record_bytes}
use dotminecraft.Core.Body.{Record}
use dotminecraft.Core.Crypto.{Crypto}
use dotminecraft.Net.Swarm.{Swarm, IssuesIds, PeerId, QueryId, Multiaddr, KadRecord}
use dotminecraft.Net.Message.{
  Waiter, KadResult, put_result, found_record, finished, get_failed, other_result, Event, ping,
  connection_closed, external_addr_confirmed, identified, mdns_discovered, query_progressed,
  inbound_put, other_event,
}
use dotminecraft.Net.Node.{
  Node, handle_kad_result, handle_event, push_record, add_addresses, meet_peers, store_inbound,
}
use dotminecraft.Net.Node.Waiters.{
  Distinct, Under, IsTidy, All-remove, Distinct-remove, remove-Avoids,
}

pub Under-mono : {V : Type 0} (a b : ℕ) (m : Map QueryId V) → a ≤ b → Under a m → Under b m
Under-mono a b m le = All-map (λ e (h : e.0 < a). omega arith) m

pub Tidy-same :
    {S : Type 0} (a b : ℕ) (n m : Node S)
    → a ≤ b
    → n.pending_put ≡ m.pending_put
    → n.pending_get ≡ m.pending_get
    → IsTidy a n
    → IsTidy b m
Tidy-same a b n m le p q t = record {
  put_distinct = rw (sym p) (t.put_distinct);
  get_distinct = rw (sym q) (t.get_distinct);
  put_under = rw (sym p) (Under-mono a b n.pending_put le t.put_under);
  get_under = rw (sym q) (Under-mono a b n.pending_get le t.get_under);
}

module _ (c : Crypto) {S : Type 0} (sw : Swarm S) (ids : IssuesIds sw) where
  -- The node is tidy below the ids that its swarm will give out.
  abbrev pub IsTidyNode : Node S → Type 0
  IsTidyNode n = IsTidy (ids.next_id n.swarm) n

  push_record-Distinct :
      (o : Option (Waiter × List Bytes)) (id : QueryId) (value : Bytes)
      (m : Map QueryId (Waiter × List Bytes))
      → Distinct m
      → Distinct (push_record o id value m)
  unfolding insert
  push_record-Distinct none id value m h = h
  push_record-Distinct (some (resp, acc)) id value m h =
      (remove-Avoids id m, Distinct-remove id m h)

  lookup-Under :
      {V : Type 0} (next id : ℕ) (m : Map QueryId V) (v : V)
      → lookup id m ≡ some v
      → Under next m
      → id < next
  unfolding lookup
  lookup-Under next id [] v e h = cc
  lookup-Under next id ((j, x) ∷ m) v e (p, h) = ground (arith, lookup-Under next id m v)

  push_record-Under :
      (next : ℕ) (o : Option (Waiter × List Bytes)) (id : QueryId) (value : Bytes)
      (m : Map QueryId (Waiter × List Bytes))
      → lookup id m ≡ o
      → Under next m
      → Under next (push_record o id value m)
  unfolding insert
  push_record-Under next none id value m e h = h
  push_record-Under next (some v) id value m e h =
      (lookup-Under next id m v e h, All-remove (λ x. x.0 < next) id m h)

  get_removed :
      (next : ℕ) (n : Node S) (id : QueryId)
      → IsTidy next n
      → IsTidy next (record n { pending_get = remove id n.pending_get })
  get_removed next n id t = record {
    put_distinct = t.put_distinct;
    get_distinct = Distinct-remove id n.pending_get t.get_distinct;
    put_under = t.put_under;
    get_under = All-remove (λ e. e.0 < next) id n.pending_get t.get_under;
  }

  kad_result-IsTidy :
      (next : ℕ) (n : Node S) (id : QueryId) (res : KadResult)
      → IsTidy next n
      → IsTidy next (handle_kad_result c sw n id res).0
  unfolding handle_kad_result
  kad_result-IsTidy next n id (put_result res) t = record {
    put_distinct = Distinct-remove id n.pending_put t.put_distinct;
    get_distinct = t.get_distinct;
    put_under = All-remove _ id n.pending_put t.put_under;
    get_under = t.get_under;
  }
  kad_result-IsTidy next n id (found_record value) t =
      elim (Bool-cases (leb (length value) max_record_bytes)) [
        | inl fits ↦ rw fits (record {
          put_distinct = t.put_distinct;
          get_distinct = push_record-Distinct _ id value n.pending_get t.get_distinct;
          put_under = t.put_under;
          get_under = push_record-Under next _ id value n.pending_get refl t.get_under;
        })
        | inr large ↦ rw large t
      ]
  kad_result-IsTidy next n id finished t = get_removed next n id t
  kad_result-IsTidy next n id (get_failed e) t = get_removed next n id t
  kad_result-IsTidy next n id other_result t = t

  add_addresses-grows :
      (peer : PeerId) (addrs : List Multiaddr) (s : S)
      → ids.next_id s ≤ ids.next_id (add_addresses c sw peer addrs s)
  unfolding add_addresses
  add_addresses-grows peer [] s = omega arith
  add_addresses-grows peer (a ∷ addrs) s = omega (
    arith,
    ids.add_address_grows peer a s,
    add_addresses-grows peer addrs (sw.add_address peer a s),
  )

  meet_peers-grows :
      (list : List (PeerId × Multiaddr)) (s : S)
      → ids.next_id s ≤ ids.next_id (meet_peers c sw list s)
  unfolding meet_peers
  meet_peers-grows [] s = omega arith
  meet_peers-grows ((p, a) ∷ list) s = omega (
    arith,
    ids.add_address_grows p a s,
    ids.dial_grows a (sw.add_address p a s),
    meet_peers-grows list (sw.dial a (sw.add_address p a s)).0,
  )

  store_inbound-grows :
      (now instant : ℕ) (r : KadRecord) (found : Option Record) (s : S)
      → ids.next_id s ≤ ids.next_id (store_inbound c sw now instant r found s)
  unfolding store_inbound
  store_inbound-grows now instant r none s = omega arith
  store_inbound-grows now instant r (some rec) s =
      ground (arith, ids.store_put_grows (record r { expires = some (instant + rec.body.ttl) }) s)

  kad_result-next_id :
      (n : Node S) (id : QueryId) (res : KadResult)
      → ids.next_id (handle_kad_result c sw n id res).0.swarm ≡ ids.next_id n.swarm
  unfolding handle_kad_result
  kad_result-next_id n id res = ground arith

  pub handle_event-IsTidy :
      (now instant : ℕ) (n : Node S) (e : Event)
      → IsTidyNode n
      → IsTidyNode (handle_event c sw now instant n e).0
  unfolding handle_event
  handle_event-IsTidy now instant n (ping p ms) t = Tidy-same _ _ n _ (omega arith) refl refl t
  handle_event-IsTidy now instant n (connection_closed p x) t = ground arith
  handle_event-IsTidy now instant n (external_addr_confirmed a) t = ground arith
  handle_event-IsTidy now instant n (identified p addrs) t =
      Tidy-same _ _ n _ (add_addresses-grows p addrs n.swarm) refl refl t
  handle_event-IsTidy now instant n (mdns_discovered l) t =
      Tidy-same _ _ n _ (meet_peers-grows l n.swarm) refl refl t
  handle_event-IsTidy now instant n (query_progressed id res) t =
      rw (kad_result-next_id n id res) (kad_result-IsTidy (ids.next_id n.swarm) n id res t)
  handle_event-IsTidy now instant n (inbound_put r) t =
      Tidy-same _ _ n _ (store_inbound-grows now instant r _ n.swarm) refl refl t
  handle_event-IsTidy now instant n other_event t = t
