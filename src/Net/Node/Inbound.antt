-- ===== src/Net/Node/Inbound.antt =====
-- What the events of the swarm do to the record store (crates/net/src/node.rs): only records that
-- their keys own get in, and a record is only replaced by a newer one.
use dotminecraft.Prelude.{
  ℕ, ◌+◌, ◌≤◌, ◌<◌, ◌≡◌, inl, inr, refl, sym, ap, subst, some-injective, ◌∙◌, true, false, Option,
  none, some, List, [], ◌∷◌, length, ltb, seq_eq, seq_eq_iff, ok, arith, Bool-cases,
}
use dotminecraft.Core.Text.{Bytes}
use dotminecraft.Core.Body.{Record}
use dotminecraft.Core.Crypto.{Crypto}
use dotminecraft.Core.Record.{from_bytes, authorizes_storage_key}
use dotminecraft.Net.Swarm.{Swarm, KeepsStore, PeerId, Multiaddr, KadRecord}
use dotminecraft.Net.Message.{
  Event, ping, connection_closed, external_addr_confirmed, identified, mdns_discovered,
  query_progressed, inbound_put, other_event, KadResult,
}
use dotminecraft.Net.Node.{
  Node, validate_inbound_record, is_newer_than_stored, store_inbound, handle_event,
  handle_kad_result, add_addresses, meet_peers, saturating_add, max_future_skew,
}

-- The value is a record whose key owns the storage key.
abbrev pub OwnedValue : Crypto → Bytes → Bytes → Record → Type 0
OwnedValue c key value rec =
    (from_bytes c value ≡ ok rec) × (authorizes_storage_key c rec key ≡ true)

pub validate_sound :
    (c : Crypto) {S : Type 0} (sw : Swarm S) (r : KadRecord) (rec : Record)
    → validate_inbound_record c sw r ≡ some rec
    → (length r.key ≡ 32) × OwnedValue c r.key r.value rec
unfolding validate_inbound_record
validate_sound c sw r rec h = ground arith

module _ (c : Crypto) {S : Type 0} (sw : Swarm S) where
  -- Newer than every record that is stored under the key and can be read.
  abbrev pub IsNewer : S → Bytes → Record → Type 0
  IsNewer s key rec =
      (b : Bytes) (old : Record)
      → sw.store_get key s ≡ some b
      → from_bytes c b ≡ ok old
      → old.body.ts < rec.body.ts

  stored-IsNewer :
      (s : S) (key : Bytes) (rec : Record)
      → is_newer_than_stored c sw s key rec.body.ts ≡ true
      → IsNewer s key rec
  unfolding is_newer_than_stored
  stored-IsNewer s key rec h b old e d = ground arith

  -- What the store holds under a key after an event, against before.
  pub data Change (now : ℕ) (key : Bytes) (s t : S) : Type 0 where
    same : sw.store_get key t ≡ sw.store_get key s → Change now key s t
    stored :
        (value : Bytes) (rec : Record)
        → sw.store_get key t ≡ some value
        → length key ≡ 32
        → OwnedValue c key value rec
        → rec.body.ts ≤ now + max_future_skew
        → IsNewer s key rec
        → Change now key s t

  -- Every record in the store belongs to its key.
  abbrev pub IsOwned : S → Type 0
  IsOwned s =
      (key value : Bytes)
      → sw.store_get key s ≡ some value
      → (rec : Record) × OwnedValue c key value rec

  -- The store holds, under the key, a record dated `ts` or later.
  abbrev pub HoldsFrom : S → Bytes → ℕ → Type 0
  HoldsFrom s key ts =
      (value : Bytes) × (rec : Record) × (sw.store_get key s ≡ some value)
      × (from_bytes c value ≡ ok rec)
      × (ts ≤ rec.body.ts)

  -- The node after a row of events, with the clocks at each.
  unfoldable pub after_events : Node S → List (ℕ × ℕ × Event) → Node S
  after_events n [] = n
  after_events n ((now, instant, e) ∷ es) = after_events (handle_event c sw now instant n e).0 es

in_time :
    (now ts : ℕ) → ltb (saturating_add now max_future_skew) ts ≡ false → ts ≤ now + max_future_skew
in_time now ts h = ground arith

module _ (c : Crypto) {S : Type 0} (sw : Swarm S) (keeps : KeepsStore sw) where
  put_Change :
      (now : ℕ) (key : Bytes) (s : S) (r : KadRecord) (expires : Option ℕ) (rec : Record)
      → validate_inbound_record c sw r ≡ some rec
      → rec.body.ts ≤ now + max_future_skew
      → IsNewer c sw s r.key rec
      → Change c sw now key s (sw.store_put (record r { expires = expires }) s)
  put_Change now key s r expires rec valid time newer =
      let r' : KadRecord = record r { expires = expires } in
      let (size, owned) = validate_sound c sw r rec valid in
      let at_key : Change c sw now r.key s (sw.store_put r' s) = elim (keeps.put_self r' s) [
        | inl e ↦ stored r.value rec e size owned time newer
        | inr e ↦ same e
      ] in
      elim (Bool-cases (seq_eq r.key key)) [
        | inr other ↦ same (keeps.put_other r' key s (λ p. cc (other, (seq_eq_iff r.key key).1 p)))
        | inl hit ↦
            subst (λ k. Change c sw now k s (sw.store_put r' s)) ((seq_eq_iff r.key key).0 hit)
              at_key
      ]

  store_inbound-Change :
      (now instant : ℕ) (key : Bytes) (s : S) (r : KadRecord) (found : Option Record)
      → validate_inbound_record c sw r ≡ found
      → Change c sw now key s (store_inbound c sw now instant r found s)
  unfolding store_inbound
  store_inbound-Change now instant key s r none e = same refl
  store_inbound-Change now instant key s r (some rec) e =
      elim (Bool-cases (ltb (saturating_add now max_future_skew) rec.body.ts)) [
        | inl future ↦ rw future (same refl)
        | inr time ↦ elim (Bool-cases (is_newer_than_stored c sw s r.key rec.body.ts)) [
          | inr older ↦ rw (time, older) (same refl)
          | inl newer ↦
              rw (time, newer)
                (put_Change now key s r _ rec e (in_time now rec.body.ts time)
                  (stored-IsNewer c sw s r.key rec newer))
        ]
      ]

  pub add_addresses-store :
      (peer : PeerId) (addrs : List Multiaddr) (key : Bytes) (s : S)
      → sw.store_get key (add_addresses c sw peer addrs s) ≡ sw.store_get key s
  unfolding add_addresses
  add_addresses-store peer [] key s = refl
  add_addresses-store peer (a ∷ addrs) key s =
      add_addresses-store peer addrs key (sw.add_address peer a s)
      ∙ keeps.add_address_store peer a key s

  pub meet_peers-store :
      (list : List (PeerId × Multiaddr)) (key : Bytes) (s : S)
      → sw.store_get key (meet_peers c sw list s) ≡ sw.store_get key s
  unfolding meet_peers
  meet_peers-store [] key s = refl
  meet_peers-store ((p, a) ∷ list) key s =
      meet_peers-store list key (sw.dial a (sw.add_address p a s)).0
      ∙ keeps.dial_store a key (sw.add_address p a s)
      ∙ keeps.add_address_store p a key s

  pub kad_result-swarm :
      (n : Node S) (id : ℕ) (res : KadResult) → (handle_kad_result c sw n id res).0.swarm ≡ n.swarm
  unfolding handle_kad_result
  kad_result-swarm n id res = ground arith

  -- Whatever event comes, under each key the store holds what it held, or a record that was sent
  -- under a key of 32 bytes, is signed by the owner of that key, is dated at most ten minutes
  -- ahead, and is newer than every record that could be read there before.
  pub handle_event-Change :
      (now instant : ℕ) (n : Node S) (e : Event) (key : Bytes)
      → Change c sw now key n.swarm (handle_event c sw now instant n e).0.swarm
  unfolding handle_event
  handle_event-Change now instant n (ping p ms) key = same refl
  handle_event-Change now instant n (connection_closed p k) key = same (ground arith)
  handle_event-Change now instant n (external_addr_confirmed a) key = same (ground arith)
  handle_event-Change now instant n (identified p as') key =
      same (add_addresses-store p as' key n.swarm)
  handle_event-Change now instant n (mdns_discovered l) key = same (meet_peers-store l key n.swarm)
  handle_event-Change now instant n (query_progressed id res) key =
      same (ap (sw.store_get key) (kad_result-swarm n id res))
  handle_event-Change now instant n (inbound_put r) key =
      store_inbound-Change now instant key n.swarm r _ refl
  handle_event-Change now instant n other_event key = same refl

  Change-owned :
      {now : ℕ} {key : Bytes} {s t : S} (value : Bytes)
      → Change c sw now key s t
      → IsOwned c sw s
      → sw.store_get key t ≡ some value
      → (rec : Record) × OwnedValue c key value rec
  Change-owned value (same e) owned h = owned _ value (sym e ∙ h)
  Change-owned value (stored v rec e size o time newer) owned h =
      (rec, (ap (from_bytes c) (some-injective value v (sym h ∙ e)) ∙ o.0, o.1))

  Change-HoldsFrom :
      {now : ℕ} {key : Bytes} {s t : S} (ts : ℕ)
      → Change c sw now key s t
      → HoldsFrom c sw s key ts
      → HoldsFrom c sw t key ts
  Change-HoldsFrom ts (same e) (value, rec, h, d, le) = (value, rec, e ∙ h, d, le)
  Change-HoldsFrom ts (stored v rec e size o time newer) (value, old, h, d, le) =
      (v, rec, e, o.0, omega (arith, newer value old h d))

  -- If every record in the store belongs to its key, then no row of events brings in one that does
  -- not.
  pub after_events-IsOwned :
      (n : Node S) (es : List (ℕ × ℕ × Event))
      → IsOwned c sw n.swarm
      → IsOwned c sw (after_events c sw n es).swarm
  unfolding after_events
  after_events-IsOwned n [] owned = owned
  after_events-IsOwned n ((now, instant, e) ∷ es) owned =
      after_events-IsOwned (handle_event c sw now instant n e).0 es
        (λ key value h. Change-owned value (handle_event-Change now instant n e key) owned h)

  -- Once the store holds a readable record under a key, no row of events, replays among them, puts
  -- an older one in its place.
  pub after_events-HoldsFrom :
      (n : Node S) (es : List (ℕ × ℕ × Event)) (key : Bytes) (ts : ℕ)
      → HoldsFrom c sw n.swarm key ts
      → HoldsFrom c sw (after_events c sw n es).swarm key ts
  unfolding after_events
  after_events-HoldsFrom n [] key ts h = h
  after_events-HoldsFrom n ((now, instant, e) ∷ es) key ts h =
      after_events-HoldsFrom (handle_event c sw now instant n e).0 es key ts
        (Change-HoldsFrom ts (handle_event-Change now instant n e key) h)
