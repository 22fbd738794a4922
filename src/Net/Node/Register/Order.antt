-- ===== src/Net/Node/Register/Order.antt =====
-- The order in which records come to a storage node of crates/net/src/node.rs.
use mathlib.Core.List.{Perm, foldr}
use mathlib.Core.List.Perm
use dotminecraft.Prelude.{
  ℕ, ◌≤◌, ◌≡◌, refl, ap, ◌∙◌, Option, none, some, List, [], ◌∷◌, max, ltb, seq_eq, false,
  if◌then◌else◌, inl, inr, arith, Elem,
}
use dotminecraft.Core.Text.{Bytes}
use dotminecraft.Core.Body.{Record}
use dotminecraft.Core.Crypto.{Crypto}
use dotminecraft.Core.Record.Order.{stamp}
use dotminecraft.Net.Swarm.{Swarm, KeepsStore}
use dotminecraft.Net.Message.{Event, inbound_put}
use dotminecraft.Net.Node.{Node, validate_inbound_record, saturating_add, max_future_skew}
use dotminecraft.Net.Node.Inbound.{after_events}
use dotminecraft.Net.Node.Register.{
  newer, held, admitted, register_after, HasRoom, after_events-refines,
}

stamp-newer : (reg offer : Option Record) → stamp (newer reg offer) ≡ max (stamp offer) (stamp reg)
stamp-newer reg none = omega arith
stamp-newer none (some r) = omega arith
stamp-newer (some old) (some r) = ground arith

module _ (c : Crypto) {S : Type 0} (sw : Swarm S) (key : Bytes) where
  -- The later of a time and that of what an event offers.
  abbrev pub raise : ℕ × ℕ × Event → ℕ → ℕ
  raise (now, instant, e) m = max (stamp (admitted c sw key now e)) m

  raise_comm : (a b : ℕ × ℕ × Event) (m : ℕ) → raise a (raise b m) ≡ raise b (raise a m)
  raise_comm a b m = omega arith

  raise-foldr :
      (a : ℕ × ℕ × Event) (m : ℕ) (es : List (ℕ × ℕ × Event))
      → foldr (raise) (raise a m) es ≡ raise a (foldr (raise) m es)
  raise-foldr a m [] = refl
  raise-foldr a m (e ∷ es) = ap (raise e) (raise-foldr a m es) ∙ raise_comm e a (foldr (raise) m es)

  -- The time of what the register ends with is the latest of all that it held and was offered.
  stamp-register_after :
      (reg : Option Record) (es : List (ℕ × ℕ × Event))
      → stamp (register_after c sw key reg es) ≡ foldr (raise) (stamp reg) es
  stamp-register_after reg [] = refl
  stamp-register_after reg ((now, instant, e) ∷ es) =
      let offer = admitted c sw key now e in
      stamp-register_after (newer reg offer) es
      ∙ ap (λ m. foldr (raise) m es) (stamp-newer reg offer)
      ∙ raise-foldr (now, instant, e) (stamp reg) es

  -- The record that an event brings under the key and that may be stored there, at a time when it is
  -- not dated too far ahead.
  abbrev pub offered : Event → Option Record
  offered (inbound_put r) = if seq_eq r.key key then validate_inbound_record c sw r else none
  offered _ = none

  -- A valid record that the event brings is not dated more than ten minutes ahead when it comes.
  abbrev pub InTime : ℕ × ℕ × Event → Type 0
  InTime (now, instant, inbound_put r) =
      (rec : Record)
      → validate_inbound_record c sw r ≡ some rec
      → ltb (saturating_add now max_future_skew) rec.body.ts ≡ false
  InTime _ = Unit {0}

  -- The later of a time and that of what an event brings, whenever it comes.
  abbrev raise_by : Event → ℕ → ℕ
  raise_by e m = max (stamp (offered e)) m

  abbrev pub event_of : ℕ × ℕ × Event → Event
  event_of (now, instant, e) = e

  foldr-raise-ge :
      (m : ℕ) (es : List (ℕ × ℕ × Event)) (e : ℕ × ℕ × Event)
      → Elem e es
      → stamp (admitted c sw key e.0 e.2) ≤ foldr (raise) m es
  foldr-raise-ge m [] e h = absurd h
  foldr-raise-ge m (x ∷ es) e (inl p) = rw p (omega arith)
  foldr-raise-ge m (x ∷ es) e (inr h) = omega (arith, foldr-raise-ge m es e h)

  -- After any row of events for which the record store has room, what can be read under the key is as
  -- recent as each record that the events offered.
  pub after_events-offered :
      (keeps : KeepsStore sw) (n : Node S) (es : List (ℕ × ℕ × Event)) (e : ℕ × ℕ × Event)
      → HasRoom c sw key n es
      → Elem e es
      → stamp (admitted c sw key e.0 e.2) ≤ stamp (held c sw key (after_events c sw n es).swarm)
  after_events-offered keeps n es e room m =
      rw
        (
          after_events-refines c sw keeps key n es room,
          stamp-register_after (held c sw key n.swarm) es,
        )
        (foldr-raise-ge (stamp (held c sw key n.swarm)) es e m)
