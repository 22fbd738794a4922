-- ===== src/Net/Node/Register.antt =====
-- What a storage node promises of a key, as a register: it holds the newest record that was ever
-- offered to it under that key and may be stored there. The abstract register, and that the task of
-- crates/net/src/node.rs implements it while its record store has room under that key.
pub mod Order
use mathlib.Core.List.{Perm, foldr}
use mathlib.Core.List.Perm
use native.Mathlib.Nat.{ℕ_set}
use dotminecraft.Prelude.{
  ℕ, Bool, ◌+◌, ◌≤◌, ◌≡◌, inl, inr, refl, sym, ap, ◌∙◌, true, Option, none, some, List, [], ◌∷◌,
  max, ltb, seq_eq, seq_eq_iff, ok, err, Result, Result-cases, arith, Bool-cases, Option-cases,
  Elem, if◌then◌else◌,
}
use dotminecraft.Core.Text.{Bytes}
use dotminecraft.Core.Error.{VerifyError}
use dotminecraft.Core.Body.{Record}
use dotminecraft.Core.Crypto.{Crypto}
use dotminecraft.Core.Record.{from_bytes}
use dotminecraft.Core.Record.Order.{stamp}
use dotminecraft.Net.Swarm.{Swarm, KeepsStore, KadRecord}
use dotminecraft.Net.Message.{
  Event, ping, connection_closed, external_addr_confirmed, identified, mdns_discovered,
  query_progressed, inbound_put, other_event,
}
use dotminecraft.Net.Node.{
  Node, validate_inbound_record, is_newer_than_stored, store_inbound, handle_event, saturating_add,
  max_future_skew,
}
use dotminecraft.Net.Node.Inbound.{
  after_events, validate_sound, add_addresses-store, meet_peers-store, kad_result-swarm,
}

-- The abstract register: of the record that it holds and one that is offered, the newer one.
abbrev pub newer : Option Record → Option Record → Option Record
newer held none = held
newer none (some r) = some r
newer (some old) (some r) = if ltb old.body.ts r.body.ts then some r else some old

abbrev read : Result VerifyError Record → Option Record
read (ok r) = some r
read (err e) = none

-- The record that is offered and admitted, unless it is dated too far ahead.
abbrev in_time : ℕ → Option Record → Option Record
in_time now none = none
in_time now (some r) = if ltb (saturating_add now max_future_skew) r.body.ts then none else some r

-- Whether a record dated `ts` takes the register's place.
abbrev beats : Option Record → ℕ → Bool
beats none ts = true
beats (some old) ts = ltb old.body.ts ts

module _ (c : Crypto) {S : Type 0} (sw : Swarm S) (key : Bytes) where
  abbrev readable : Option Bytes → Option Record
  readable none = none
  readable (some value) = read (from_bytes c value)

  -- The record that can be read under the key.
  abbrev pub held : S → Option Record
  held s = readable (sw.store_get key s)

  -- The record that an event offers under the key, if it may be stored there: it authorizes the key,
  -- and is dated at most ten minutes ahead.
  abbrev pub admitted : ℕ → Event → Option Record
  admitted now (inbound_put r) =
      if seq_eq r.key key then in_time now (validate_inbound_record c sw r) else none
  admitted now _ = none

  -- The abstract register over a row of events.
  abbrev pub register_after : Option Record → List (ℕ × ℕ × Event) → Option Record
  register_after reg [] = reg
  register_after reg ((now, instant, e) ∷ es) = register_after (newer reg (admitted now e)) es

module _ (c : Crypto) {S : Type 0} (sw : Swarm S) (key : Bytes) where
  -- What the event brings under the key, if it is valid, the record store would take now.
  abbrev pub Takes : S → Event → Type 0
  Takes s (inbound_put r) =
      (rec : Record)
      → validate_inbound_record c sw r ≡ some rec
      → r.key ≡ key
      → (expires : Option ℕ)
      → sw.store_get r.key (sw.store_put (record r { expires = expires }) s) ≡ some r.value
  Takes s _ = Unit {0}

  -- The record store has room under the key whenever one of the events brings something for it.
  abbrev pub HasRoom : Node S → List (ℕ × ℕ × Event) → Type 0
  HasRoom n [] = Unit {0}
  HasRoom n ((now, instant, e) ∷ es) =
      Takes n.swarm e × HasRoom (handle_event c sw now instant n e).0 es

module _ (c : Crypto) {S : Type 0} (sw : Swarm S) (keeps : KeepsStore sw) (key : Bytes) where
  is_newer-beats :
      (s : S) (k : Bytes) (ts : ℕ) → is_newer_than_stored c sw s k ts ≡ beats (held c sw k s) ts
  unfolding is_newer_than_stored
  is_newer-beats s k ts = elim (Option-cases (sw.store_get k s)) [
    | inl e ↦ rw (e, is_newer_than_stored) refl
    | inr (b, e) ↦ elim (Result-cases (from_bytes c b)) [
      | inl (r, q) ↦ rw (e, is_newer_than_stored, q) refl
      | inr (x, q) ↦ rw (e, is_newer_than_stored, q) refl
    ]
  ]

  held-put :
      (r : KadRecord) (s : S) (rec : Record)
      → from_bytes c r.value ≡ ok rec
      → (r.key ≡ key → sw.store_get r.key (sw.store_put r s) ≡ some r.value)
      → held c sw key (sw.store_put r s) ≡ (if seq_eq r.key key then some rec else held c sw key s)
  held-put r s rec e room = elim (Bool-cases (seq_eq r.key key)) [
    | inl hit ↦
        let same = (seq_eq_iff r.key key).0 hit in
        rw hit (
          ap (λ k. readable c sw key (sw.store_get k (sw.store_put r s))) (sym same)
          ∙ rw (room same, e) refl)
    | inr other ↦
        rw (other, keeps.put_other r key s (λ p. cc (other, (seq_eq_iff r.key key).1 p))) refl
  ]

  newer-beats :
      (reg : Option Record) (r : Record)
      → (if beats reg r.body.ts then some r else reg) ≡ newer reg (some r)
  newer-beats none r = refl
  newer-beats (some old) r = ground arith

  -- A record that is put where it is newer than what is stored.
  held-written :
      (r : KadRecord) (s : S) (rec : Record)
      → from_bytes c r.value ≡ ok rec
      → (r.key ≡ key → sw.store_get r.key (sw.store_put r s) ≡ some r.value)
      → held c sw key
          (if is_newer_than_stored c sw s r.key rec.body.ts then sw.store_put r s else s)
        ≡ (if seq_eq r.key key then newer (held c sw key s) (some rec) else held c sw key s)
  held-written r s rec e room = elim (Bool-cases (seq_eq r.key key)) [
    | inr miss ↦ elim (Bool-cases (is_newer_than_stored c sw s r.key rec.body.ts)) [
      | inl new ↦ rw (new, miss) (held-put r s rec e room ∙ rw miss refl)
      | inr old ↦ rw (old, miss) refl
    ]
    | inl hit ↦
        let at_key =
          is_newer-beats s r.key rec.body.ts
          ∙ ap (λ k. beats (held c sw k s) rec.body.ts) ((seq_eq_iff r.key key).0 hit) in
        let spec = newer-beats (held c sw key s) rec in
        elim (Bool-cases (is_newer_than_stored c sw s r.key rec.body.ts)) [
          | inl new ↦
              rw (new, hit) (held-put r s rec e room ∙ rw hit (rw (sym at_key ∙ new) at spec))
          | inr old ↦ rw (old, hit) (rw (sym at_key ∙ old) at spec)
        ]
  ]

  held-store_inbound :
      (now instant : ℕ) (r : KadRecord) (found : Option Record) (s : S)
      → validate_inbound_record c sw r ≡ found
      → Takes c sw key s (inbound_put r)
      → held c sw key (store_inbound c sw now instant r found s)
        ≡ newer (held c sw key s) (if seq_eq r.key key then in_time now found else none)
  unfolding store_inbound
  held-store_inbound now instant r none s e takes = elim (Bool-cases (seq_eq r.key key)) [
    | inl hit ↦ rw hit refl
    | inr miss ↦ rw miss refl
  ]
  held-store_inbound now instant r (some rec) s e takes =
      elim (Bool-cases (ltb (saturating_add now max_future_skew) rec.body.ts)) [
        | inl future ↦ elim (Bool-cases (seq_eq r.key key)) [
          | inl hit ↦ rw (future, hit) refl
          | inr miss ↦ rw (future, miss) refl
        ]
        | inr time ↦
            let r' : KadRecord = record r { expires = some (instant + rec.body.ttl) } in
            let written =
              held-written r' s rec (validate_sound c sw r rec e).1.0
                (λ same. takes rec e same (some (instant + rec.body.ttl))) in
            elim (Bool-cases (seq_eq r.key key)) [
              | inl hit ↦ rw (time, hit) (written ∙ rw hit refl)
              | inr miss ↦ rw (time, miss) (written ∙ rw miss refl)
            ]
      ]

  held-event :
      (now instant : ℕ) (n : Node S) (e : Event)
      → Takes c sw key n.swarm e
      → held c sw key (handle_event c sw now instant n e).0.swarm
        ≡ newer (held c sw key n.swarm) (admitted c sw key now e)
  unfolding handle_event
  held-event now instant n (ping p ms) takes = refl
  held-event now instant n (connection_closed p k) takes = ground arith
  held-event now instant n (external_addr_confirmed a) takes = ground arith
  held-event now instant n (identified p addrs) takes =
      ap (readable c sw key) (add_addresses-store c sw keeps p addrs key n.swarm)
  held-event now instant n (mdns_discovered l) takes =
      ap (readable c sw key) (meet_peers-store c sw keeps l key n.swarm)
  held-event now instant n (query_progressed id res) takes =
      ap (held c sw key) (kad_result-swarm c sw keeps n id res)
  held-event now instant n (inbound_put r) takes =
      held-store_inbound now instant r _ n.swarm refl takes
  held-event now instant n other_event takes = refl

  pub after_events-refines :
      (n : Node S) (es : List (ℕ × ℕ × Event))
      → HasRoom c sw key n es
      → held c sw key (after_events c sw n es).swarm
        ≡ register_after c sw key (held c sw key n.swarm) es
  unfolding after_events
  after_events-refines n [] room = refl
  after_events-refines n ((now, instant, e) ∷ es) (takes, room) =
      after_events-refines (handle_event c sw now instant n e).0 es room
      ∙ ap (λ reg. register_after c sw key reg es) (held-event now instant n e takes)
