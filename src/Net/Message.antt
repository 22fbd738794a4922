-- ===== src/Net/Message.antt =====
-- What the network task of crates/net/src/node.rs is asked, what it answers, and the events of the
-- swarm that it handles. A oneshot channel is named by a number.
use dotminecraft.Prelude.{ℕ, List, Result}
use dotminecraft.Core.Text.{Str, Bytes}
use dotminecraft.Net.Swarm.{PeerId, QueryId, Multiaddr, KadRecord}

abbrev pub Waiter : Type 0
Waiter = ℕ

pub record DoctorInfo : Type 0 where
  pub peer_id : Str
  pub listen_addrs : List Str
  pub external_addrs : List Str
  pub connected_peers : ℕ
  pub nat_status : Str

pub data Command : Type 0 where
  put_record : (key value : Bytes) (resp : Waiter) → Command
  get_record : (key : Bytes) (resp : Waiter) → Command
  dial : (addr : Multiaddr) (resp : Waiter) → Command
  doctor : (resp : Waiter) → Command

pub data Reply : Type 0 where
  done : Waiter → Result Str (Unit {0}) → Reply
  records : Waiter → List Bytes → Reply
  report : Waiter → DoctorInfo → Reply

pub data KadResult : Type 0 where
  put_result : Result Str (Unit {0}) → KadResult
  found_record : (value : Bytes) → KadResult
  finished : KadResult
  get_failed : Str → KadResult
  other_result : KadResult

pub data Event : Type 0 where
  ping : (peer : PeerId) (millis : ℕ) → Event
  connection_closed : (peer : PeerId) (num_established : ℕ) → Event
  external_addr_confirmed : Multiaddr → Event
  identified : PeerId → List Multiaddr → Event
  mdns_discovered : List (PeerId × Multiaddr) → Event
  query_progressed : QueryId → KadResult → Event
  inbound_put : KadRecord → Event
  -- the events that are only logged, or ignored
  other_event : Event

-- One turn of `event_loop`: what `select!` picked, with the clocks at that moment.
pub data Input : Type 0 where
  command : (instant : ℕ) → Command → Input
  event : (now instant : ℕ) → Event → Input
