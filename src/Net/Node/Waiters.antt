-- ===== src/Net/Node/Waiters.antt =====
-- The callers of the network task of crates/net/src/node.rs: who waits for an answer, and who has
-- had one.
pub mod Tidy
pub mod Settled
use dotminecraft.Prelude.{
  ℕ, ◌+◌, ◌≤◌, ◌<◌, ◌≡◌, ◌≢◌, inl, inr, refl, sym, length, leb, ap, ◌∙◌, Bool, true, false, Option,
  none, some, List, [], ◌∷◌, ◌++◌, ◌==◌, ==_iff, ==_refl, All, All-map, Result, ok, err, arith,
  Bool-cases, Option-cases, Result-cases, if◌then◌else◌, lookup, insert, remove, nat_eq, Map,
}
use dotminecraft.Core.Text.{Str, Bytes}
use dotminecraft.Core.Consts.{max_record_bytes}
use dotminecraft.Core.Crypto.{Crypto}
use dotminecraft.Net.Swarm.{Swarm, IssuesIds, PeerId, QueryId, Multiaddr, KadRecord}
use dotminecraft.Net.Message.{
  Waiter, Command, put_record, get_record, dial, doctor, Reply, done, records, report, KadResult,
  put_result, found_record, finished, get_failed, other_result, Event, ping, connection_closed,
  external_addr_confirmed, identified, mdns_discovered, query_progressed, inbound_put, other_event,
  Input, command, event,
}
use dotminecraft.Net.Node.{
  Node, handle_command, handle_kad_result, handle_event, turn, event_loop, push_record, answer_put,
  answer_get, add_addresses, meet_peers, store_inbound, validate_inbound_record,
}

abbrev pub hit : Waiter → Waiter → ℕ
hit w v = if w == v then 1 else 0

-- How often a caller is among the entries, and whether it is the one that was looked up.
module _ {V : Type 0} (waiter : V → Waiter) (w : Waiter) where
  abbrev pub tally : Map QueryId V → ℕ
  tally [] = 0
  tally ((id, v) ∷ m) = hit w (waiter v) + tally m

  abbrev pub one : Option V → ℕ
  one none = 0
  one (some v) = hit w (waiter v)

abbrev pub Avoids : {V : Type 0} → QueryId → Map QueryId V → Type 0
Avoids id m = All (λ e. e.0 ≢ id) m

abbrev pub Distinct : {V : Type 0} → Map QueryId V → Type 0
Distinct [] = Unit
Distinct ((id, v) ∷ m) = Avoids id m × Distinct m

abbrev pub Under : {V : Type 0} → ℕ → Map QueryId V → Type 0
Under next m = All (λ e. e.0 < next) m

module _ {V : Type 0} where
  pub All-remove :
      (P : QueryId × V → Type 0) (id : QueryId) (m : Map QueryId V) → All P m → All P (remove id m)
  unfolding remove
  All-remove P id [] h = tt
  All-remove P id ((j, v) ∷ m) (p, h) = ground (arith, All-remove P id m h)

  pub Distinct-remove : (id : QueryId) (m : Map QueryId V) → Distinct m → Distinct (remove id m)
  unfolding remove
  Distinct-remove id [] h = tt
  Distinct-remove id ((j, v) ∷ m) (a, h) =
      ground (arith, Distinct-remove id m h, All-remove (λ e. e.0 ≢ j) id m a)

  pub remove-Avoids : (id : QueryId) (m : Map QueryId V) → Avoids id (remove id m)
  unfolding remove
  remove-Avoids id [] = tt
  remove-Avoids id ((j, v) ∷ m) = ground (arith, remove-Avoids id m)

  pub Under-Avoids : (next id : ℕ) (m : Map QueryId V) → next ≤ id → Under next m → Avoids id m
  Under-Avoids next id m le = All-map (λ e (h : e.0 < next). λ q. absurd (omega arith)) m

  pub tally-Avoids :
      (waiter : V → Waiter) (w : Waiter) (id : QueryId) (m : Map QueryId V)
      → Avoids id m
      → (tally waiter w (remove id m) ≡ tally waiter w m) × (lookup id m ≡ none)
  unfolding remove lookup
  tally-Avoids waiter w id [] h = (refl, refl)
  tally-Avoids waiter w id ((j, v) ∷ m) (p, h) = ground (arith, tally-Avoids waiter w id m h)

  -- Removing an entry takes one caller away, the one that is found there.
  pub tally-remove :
      (waiter : V → Waiter) (w : Waiter) (id : QueryId) (m : Map QueryId V)
      → Distinct m
      → tally waiter w (remove id m) + one waiter w (lookup id m) ≡ tally waiter w m
  unfolding remove lookup
  tally-remove waiter w id [] h = refl
  tally-remove waiter w id ((j, v) ∷ m) (a, h) = elim (Bool-cases (j == id)) [
    | inl same ↦
        let (keeps, absent) = tally-Avoids waiter w j m a in
        let e = (==_iff j id).0 same in rw same (omega (arith, rw e at keeps))
    | inr other ↦ rw other (omega (arith, tally-remove waiter w id m h))
  ]

abbrev pub get_waiter : Waiter × List Bytes → Waiter
get_waiter (resp, acc) = resp

abbrev pub put_waiter : Waiter → Waiter
put_waiter resp = resp

-- How often a caller is waiting in a node, asked by an input, and answered by a row of replies.
module _ (w : Waiter) where
  abbrev pub waits : {S : Type 0} → Node S → ℕ
  waits n = tally put_waiter w n.pending_put + tally get_waiter w n.pending_get

  abbrev pub asks : Input → ℕ
  asks (command instant (put_record key value resp)) = hit w resp
  asks (command instant (get_record key resp)) = hit w resp
  asks (command instant (dial addr resp)) = hit w resp
  asks (command instant (doctor resp)) = hit w resp
  asks (event now instant e) = 0

  abbrev pub asked : List Input → ℕ
  asked [] = 0
  asked (i ∷ inputs) = asks i + asked inputs

  abbrev pub answered : List Reply → ℕ
  answered [] = 0
  answered (done resp res ∷ replies) = hit w resp + answered replies
  answered (records resp found ∷ replies) = hit w resp + answered replies
  answered (report resp info ∷ replies) = hit w resp + answered replies

  pub answered-append : (xs ys : List Reply) → answered (xs ++ ys) ≡ answered xs + answered ys
  answered-append [] ys = omega arith
  answered-append (done r x ∷ xs) ys = omega (arith, answered-append xs ys)
  answered-append (records r x ∷ xs) ys = omega (arith, answered-append xs ys)
  answered-append (report r x ∷ xs) ys = omega (arith, answered-append xs ys)

-- No two entries have one id, and all ids are below a bound.
pub record IsTidy {S : Type 0} (next : ℕ) (n : Node S) : Type 0 where
  pub put_distinct : Distinct n.pending_put
  pub get_distinct : Distinct n.pending_get
  pub put_under : Under next n.pending_put
  pub get_under : Under next n.pending_get

module _ (c : Crypto) {S : Type 0} (sw : Swarm S) (w : Waiter) where
  answered-put :
      (o : Option Waiter) (res : Result Str (Unit {0}))
      → answered w (answer_put o res) ≡ one put_waiter w o
  answered-put none res = refl
  answered-put (some resp) res = omega arith

  answered-get : (o : Option (Waiter × List Bytes)) → answered w (answer_get o) ≡ one get_waiter w o
  answered-get none = refl
  answered-get (some (resp, acc)) = omega arith

  tally-push_record :
      (o : Option (Waiter × List Bytes)) (id : QueryId) (value : Bytes)
      (m : Map QueryId (Waiter × List Bytes))
      → lookup id m ≡ o
      → Distinct m
      → tally get_waiter w (push_record o id value m) ≡ tally get_waiter w m
  unfolding insert
  tally-push_record none id value m e h = refl
  tally-push_record (some (resp, acc)) id value m e h =
      let t = tally-remove get_waiter w id m h in
      let t' : tally get_waiter w (remove id m) + hit w resp ≡ tally get_waiter w m = rw e at t in
      omega (arith, t')

  -- A result of a query takes from the callers who wait exactly those whom it answers.
  kad_result-waits :
      (n : Node S) (id : QueryId) (res : KadResult)
      → Distinct n.pending_put
      → Distinct n.pending_get
      → waits w (handle_kad_result c sw n id res).0 + answered w (handle_kad_result c sw n id res).1
        ≡ waits w n
  unfolding handle_kad_result
  kad_result-waits n id (put_result res) h k = omega (
    arith,
    answered-put (lookup id n.pending_put) res,
    tally-remove put_waiter w id n.pending_put h,
  )
  kad_result-waits n id (found_record value) h k =
      ground (arith, tally-push_record (lookup id n.pending_get) id value n.pending_get refl k)
  kad_result-waits n id finished h k =
      omega (
        arith,
        answered-get (lookup id n.pending_get),
        tally-remove get_waiter w id n.pending_get k,
      )
  kad_result-waits n id (get_failed e) h k =
      omega (
        arith,
        answered-get (lookup id n.pending_get),
        tally-remove get_waiter w id n.pending_get k,
      )
  kad_result-waits n id other_result h k = omega arith

  pub handle_event-waits :
      (now instant : ℕ) (n : Node S) (e : Event)
      → Distinct n.pending_put
      → Distinct n.pending_get
      → waits w (handle_event c sw now instant n e).0
          + answered w (handle_event c sw now instant n e).1
        ≡ waits w n
  unfolding handle_event
  handle_event-waits now instant n (ping p ms) h k = omega arith
  handle_event-waits now instant n (connection_closed p x) h k = ground arith
  handle_event-waits now instant n (external_addr_confirmed a) h k = ground arith
  handle_event-waits now instant n (identified p addrs) h k = omega arith
  handle_event-waits now instant n (mdns_discovered l) h k = omega arith
  handle_event-waits now instant n (query_progressed id res) h k = kad_result-waits n id res h k
  handle_event-waits now instant n (inbound_put r) h k = omega arith
  handle_event-waits now instant n other_event h k = omega arith
