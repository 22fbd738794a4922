-- ===== src/Cli/Agent/Origins.antt =====
-- Where the tunnels in the map of crates/cli/src/agent.rs come from.
use dotminecraft.Prelude.{
  ℕ, ◌≡◌, ◌⊎◌, inl, inr, sym, ap, ◌∙◌, none, some, List, [], ◌∷◌, Elem, Option, Bool-cases, seq_eq,
  seq_eq_iff, lookup, insert, lookup-insert, sequence_eq, Result, ok, err, Result-cases,
}
use dotminecraft.Core.Text.{Str}
use dotminecraft.Core.Name.{Name, parse, to_string}
use dotminecraft.Net.Swarm.{PeerId}
use dotminecraft.Cli.Agent.{
  TunnelMap, Surroundings, insert_all, open_tunnel, tunnel_for, resolve_and_tunnel,
}

pub lookup-insert-cases :
    (key k : Str) (v entry : ℕ × PeerId) (m : TunnelMap)
    → lookup k (insert key v m) ≡ some entry
    → ((key ≡ k) × (v ≡ entry)) ⊎ (lookup k m ≡ some entry)
lookup-insert-cases key k v entry m h = elim (Bool-cases (seq_eq key k)) [
  | inl same ↦
      let e : some v ≡ some entry = rw same at (sym (lookup-insert key k v m) ∙ h) in
      inl ((seq_eq_iff key k).0 same, cc)
  | inr other ↦ inr (rw other at (sym (lookup-insert key k v m) ∙ h))
]

lookup-insert_all :
    (more : List (Str × (ℕ × PeerId))) (k : Str) (entry : ℕ × PeerId) (m : TunnelMap)
    → lookup k (insert_all more m) ≡ some entry
    → Elem (k, entry) more ⊎ (lookup k m ≡ some entry)
unfolding insert_all
lookup-insert_all [] k entry m h = inr h
lookup-insert_all ((key, v) ∷ more) k entry m h =
    elim (lookup-insert_all more k entry (insert key v m) h) [
      | inl later ↦ inl (inr later)
      | inr now ↦ elim (lookup-insert-cases key k v entry m now) [
        | inl (p, q) ↦ inl (inl (cc (p, q)))
        | inr old ↦ inr old
      ]
    ]

-- The tunnel was in the map, or another connection put it there in the meantime, or this call
-- spawned it for the key, to the peer that `establish` gave, on the port that was bound.
abbrev Origin : Str → Surroundings → TunnelMap → Option (ℕ × PeerId) → Str → ℕ × PeerId → Type 0
Origin key world tunnels spawned k entry =
    (lookup k tunnels ≡ some entry)
    ⊎ (Elem (k, entry) world.meanwhile
        ⊎ ((key ≡ k)
            × (spawned ≡ some entry)
            × (world.bound ≡ ok entry.0)
            × (world.established ≡ ok entry.1)))

abbrev FromOpen :
    Str → Surroundings → TunnelMap → Result Str PeerId → Result Str ℕ → Str → ℕ × PeerId → Type 0
FromOpen key world tunnels est bound k entry =
    (lookup k tunnels ≡ some entry)
    ⊎ (Elem (k, entry) world.meanwhile
        ⊎ ((key ≡ k)
            × ((open_tunnel key world est bound tunnels).spawned ≡ some entry)
            × (bound ≡ ok entry.0)
            × (est ≡ ok entry.1)))

meanwhile_cases :
    (key : Str) (world : Surroundings) (tunnels : TunnelMap) (est : Result Str PeerId)
    (bound : Result Str ℕ) (k : Str) (entry : ℕ × PeerId)
    → lookup k (insert_all world.meanwhile tunnels) ≡ some entry
    → FromOpen key world tunnels est bound k entry
meanwhile_cases key world tunnels est bound k entry h =
    elim (lookup-insert_all world.meanwhile k entry tunnels h) [
      | inl m ↦ inr (inl m)
      | inr old ↦ inl old
    ]

open_tunnel-FromOpen :
    (key : Str) (world : Surroundings) (tunnels : TunnelMap) (est : Result Str PeerId)
    (bound : Result Str ℕ) (k : Str) (entry : ℕ × PeerId)
    → lookup k (open_tunnel key world est bound tunnels).tunnels ≡ some entry
    → FromOpen key world tunnels est bound k entry
unfolding open_tunnel
open_tunnel-FromOpen key world tunnels (err e) bound k entry h =
    meanwhile_cases key world tunnels (err e) bound k entry h
open_tunnel-FromOpen key world tunnels (ok peer) (err e) k entry h =
    meanwhile_cases key world tunnels (ok peer) (err e) k entry h
open_tunnel-FromOpen key world tunnels (ok peer) (ok port) k entry h =
    elim (lookup-insert-cases key k (port, peer) entry (insert_all world.meanwhile tunnels) h) [
      | inl (same, q) ↦ inr (inr (same, ap some q, ap (λ x. ok x.0) q, ap (λ x. ok x.1) q))
      | inr old ↦ meanwhile_cases key world tunnels (ok peer) (ok port) k entry old
    ]

tunnel_for-Origin :
    (key : Str) (world : Surroundings) (known : Option (ℕ × PeerId)) (tunnels : TunnelMap) (k : Str)
    (entry : ℕ × PeerId)
    → lookup k (tunnel_for key world known tunnels).tunnels ≡ some entry
    → Origin key world tunnels (tunnel_for key world known tunnels).spawned k entry
unfolding tunnel_for
tunnel_for-Origin key world (some (port, peer)) tunnels k entry h = inl h
tunnel_for-Origin key world none tunnels k entry h =
    open_tunnel-FromOpen key world tunnels world.established world.bound k entry h

-- Each tunnel that is in the map after a resolve was there before, or was put there by another
-- connection in the meantime, or is the one that this resolve spawned: its text parses as the name
-- that is the key, its peer is what `establish` gave and its port what was bound.
pub resolve_and_tunnel-origin :
    (name_str : Str) (world : Surroundings) (tunnels : TunnelMap) (k : Str) (entry : ℕ × PeerId)
    → lookup k (resolve_and_tunnel name_str world tunnels).tunnels ≡ some entry
    → (lookup k tunnels ≡ some entry)
      ⊎ (Elem (k, entry) world.meanwhile
          ⊎ ((name : Name) × (parse name_str ≡ ok name)
              × (to_string name ≡ k)
              × ((resolve_and_tunnel name_str world tunnels).spawned ≡ some entry)
              × (world.bound ≡ ok entry.0)
              × (world.established ≡ ok entry.1)))
unfolding resolve_and_tunnel
resolve_and_tunnel-origin name_str world tunnels k entry h = elim (Result-cases (parse name_str)) [
  | inr (x, e) ↦ inl (rw (e, resolve_and_tunnel) at h)
  | inl (name, e) ↦
      let key = to_string name in
      elim (tunnel_for-Origin key world (lookup key tunnels) tunnels k entry
        (rw (e, resolve_and_tunnel) at h)) [
          | inl old ↦ inl old
          | inr (inl m) ↦ inr (inl m)
          | inr (inr (same, spawned, bound, est)) ↦
              inr (inr (name, e, same, rw (e, resolve_and_tunnel) spawned, bound, est))
        ]
]
