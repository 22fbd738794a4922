-- ===== src/Net/Swarm.antt =====
-- What crates/net takes from libp2p: the swarm with its Kademlia behaviour and record store, and
-- the texts of addresses and peers. It is a parameter, over an abstract state `S`.
use dotminecraft.Prelude.{ℕ, ◌≡◌, ◌≢◌, ◌⊎◌, Option, some, List, Result, ok, ◌≤◌, ◌<◌}
use dotminecraft.Core.Text.{Str, Bytes}

abbrev pub PeerId : Type 0
PeerId = Bytes

abbrev pub QueryId : Type 0
QueryId = ℕ

-- The components of a multiaddr: `/p2p/<id>`, `/p2p-circuit`, and all others by their text.
pub data Protocol : Type 0 where
  p2p : PeerId → Protocol
  p2p_circuit : Protocol
  other : Str → Protocol

abbrev pub Multiaddr : Type 0
Multiaddr = List Protocol

-- `kad::Record`; the publisher is not read.
pub record KadRecord : Type 0 where
  pub key : Bytes
  pub value : Bytes
  pub expires : Option ℕ

pub record Swarm (S : Type 0) : Type 0 where
  pub put_record : KadRecord → S → S × Result Str QueryId
  pub get_record : Bytes → S → S × QueryId
  pub add_address : PeerId → Multiaddr → S → S
  pub bootstrap : S → S
  pub dial : Multiaddr → S → S × Result Str (Unit {0})
  pub listen_on : Multiaddr → S → S × Result Str (Unit {0})
  -- `store_mut().get` and `store_mut().put`; a full store refuses
  pub store_get : Bytes → S → Option Bytes
  pub store_put : KadRecord → S → S
  pub listeners : S → List Multiaddr
  pub connected_peers : S → ℕ
  pub nat_status : S → Str
  pub local_peer_id : S → PeerId
  pub addr_to_string : Multiaddr → Str
  pub peer_to_string : PeerId → Str
  pub parse_multiaddr : Str → Result Str Multiaddr
  -- `PublicKey::try_from_bytes(pubkey)` and its `to_peer_id()`
  pub peer_id_from_ed25519 : Bytes → Result Str PeerId

-- The documented behaviour of the record store: one record a key, a `put` that may be refused, and
-- no change by other calls.
pub record KeepsStore {S : Type 0} (sw : Swarm S) : Type 0 where
  pub put_self :
      (r : KadRecord) (s : S)
      → (sw.store_get r.key (sw.store_put r s) ≡ some r.value)
        ⊎ (sw.store_get r.key (sw.store_put r s) ≡ sw.store_get r.key s)
  pub put_other :
      (r : KadRecord) (k : Bytes) (s : S)
      → r.key ≢ k
      → sw.store_get k (sw.store_put r s) ≡ sw.store_get k s
  pub add_address_store :
      (p : PeerId) (a : Multiaddr) (k : Bytes) (s : S)
      → sw.store_get k (sw.add_address p a s) ≡ sw.store_get k s
  pub dial_store :
      (a : Multiaddr) (k : Bytes) (s : S) → sw.store_get k (sw.dial a s).0 ≡ sw.store_get k s

-- The documented behaviour of query ids: each names one query, so a new one is none of those that
-- were given out before. `next_id` is above all of these.
pub record IssuesIds {S : Type 0} (sw : Swarm S) : Type 0 where
  pub next_id : S → ℕ
  pub put_id :
      (r : KadRecord) (s : S) (id : QueryId)
      → (sw.put_record r s).1 ≡ ok id
      → (next_id s ≤ id) × (id < next_id (sw.put_record r s).0)
  pub put_grows : (r : KadRecord) (s : S) → next_id s ≤ next_id (sw.put_record r s).0
  pub get_id :
      (key : Bytes) (s : S)
      → (next_id s ≤ (sw.get_record key s).1)
        × ((sw.get_record key s).1 < next_id (sw.get_record key s).0)
  pub add_address_grows :
      (p : PeerId) (a : Multiaddr) (s : S) → next_id s ≤ next_id (sw.add_address p a s)
  pub dial_grows : (a : Multiaddr) (s : S) → next_id s ≤ next_id (sw.dial a s).0
  pub store_put_grows : (r : KadRecord) (s : S) → next_id s ≤ next_id (sw.store_put r s)
