-- ===== src/Cli/Agent/Running/Raced.antt =====
-- Resolves of one name that run at once in crates/cli/src/agent.rs.
use dotminecraft.Prelude.{
  ℕ, suc, ◌+◌, ◌≡◌, ◌≢◌, refl, Bool, false, Option, List, [], ◌∷◌, map, length, All, lookup, insert,
  remove, beq_refl, sequence_eq, arith,
}
use dotminecraft.Core.Text.{Str, Bytes}
use dotminecraft.Core.Name.{Name, to_string}
use dotminecraft.Net.Swarm.{PeerId}
use dotminecraft.Cli.Agent.{Request, TunnelMap}
use dotminecraft.Cli.Agent.Running.{
  Running, begin_agent, Asks, insert_tunnel, misses, binds, inserts, AgentPath, stays, then_steps,
}

abbrev Entry : Type 0
Entry = ℕ × PeerId

-- The system gives each listener a port that none of those before it has.
abbrev pub HasOwnPorts : List Entry → List Entry → Type 0
HasOwnPorts [] acc = Unit {0}
HasOwnPorts (e ∷ es) acc = All (λ l. l.0 ≢ e.0) acc × HasOwnPorts es (e ∷ acc)

module _ (token : Str) (removes : Bool) (Gives : Name → PeerId → Type 0) (file : Option Bytes)
    (req : Request) (name : Name) (asks : Asks token req name) where
  abbrev key : Str
  key = to_string name

  abbrev names : List Entry → List Name
  names l = map (λ _. name) l

  abbrev keyed : List Entry → List (Str × Entry)
  keyed l = map (λ e. (key, e)) l

  -- A state by the resolves without a port, the entries not yet inserted, the listeners and the map.
  abbrev agent : List Entry → List Entry → List Entry → TunnelMap → Running
  agent opening inserting listeners tunnels = record {
    control_file = file;
    tunnels = tunnels;
    opening = names opening;
    inserting = keyed inserting;
    listeners = listeners;
    exited = [];
    ended = false;
  }

  abbrev Reached : Running → Type 0
  Reached s = AgentPath token removes Gives (begin_agent file) s

  all_miss : (es : List Entry) → Reached (agent es [] [] [])
  unfolding begin_agent lookup
  all_miss [] = stays
  all_miss (e ∷ es) = then_steps (all_miss es) (misses req name asks refl)

  abbrev onto : List Entry → List Entry → List Entry
  onto [] acc = acc
  onto (e ∷ es) acc = onto es (e ∷ acc)

  length-onto : (es acc : List Entry) → length (onto es acc) ≡ length es + length acc
  length-onto [] acc = omega arith
  length-onto (e ∷ es) acc = omega (arith, length-onto es (e ∷ acc))

  all_bind :
      (es acc : List Entry)
      → HasOwnPorts es acc
      → All (λ e. Gives name e.1) es
      → Reached (agent es acc acc [])
      → Reached (agent [] (onto es acc) (onto es acc) [])
  all_bind [] acc h gives p = p
  all_bind ((port, peer) ∷ es) acc (fresh, h) (give, gives) p =
      all_bind es ((port, peer) ∷ acc) h gives
        (then_steps p (binds name [] (names es) port peer refl give fresh))

  -- Each insertion takes the place of the one before it.
  all_insert :
      (es listeners : List Entry) (x : Entry)
      → Reached (agent [] es listeners ((key, x) ∷ []))
      → (y : Entry) × Reached (agent [] [] listeners ((key, y) ∷ []))
  unfolding insert_tunnel insert remove
  all_insert [] listeners x p = (x, p)
  all_insert (e ∷ es) listeners x p =
      all_insert es listeners e
        (rw (beq_refl key) at (then_steps p (inserts key e [] (keyed es) refl)))

  first_insert :
      (es listeners : List Entry) (n : ℕ)
      → length es ≡ suc n
      → Reached (agent [] es listeners [])
      → (y : Entry) × Reached (agent [] [] listeners ((key, y) ∷ []))
  unfolding insert_tunnel insert remove
  first_insert [] listeners n e p = absurd (omega arith)
  first_insert (x ∷ es) listeners n e p =
      all_insert es listeners x (then_steps p (inserts key x [] (keyed es) refl))

  -- Resolves of one name that run at once each spawn a listener of their own: for any number of
  -- them, with the token and for a valid name, if the system gives each a port of its own, and
  -- their peers are ones that an `establish` of the name can give, a state of
  -- the agent is reachable in which none of them is under way, the map has one tunnel, and as many
  -- listeners run as resolves were made.
  pub raced-listeners :
      (e : ℕ × PeerId) (es : List (ℕ × PeerId))
      → HasOwnPorts (e ∷ es) []
      → All (λ x. Gives name x.1) (e ∷ es)
      → (s : Running) × AgentPath token removes Gives (begin_agent file) s
        × (s.opening ≡ [])
        × (s.inserting ≡ [])
        × (length s.tunnels ≡ 1)
        × (length s.listeners ≡ length (e ∷ es))
  raced-listeners e es h gives =
      let all = onto (e ∷ es) [] in
      let size = length-onto (e ∷ es) [] in
      let (y, p) =
        first_insert all all (length es) (omega (arith, size))
          (all_bind (e ∷ es) [] h gives (all_miss (e ∷ es))) in
      (agent [] [] all ((key, y) ∷ []), p, refl, refl, refl, omega (arith, size))
