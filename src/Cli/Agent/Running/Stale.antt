-- ===== src/Cli/Agent/Running/Stale.antt =====
-- The map of tunnels of crates/cli/src/agent.rs after a listener has exited.
use dotminecraft.Prelude.{
  ℕ, ◌≡◌, refl, ◌∙◌, Bool, Option, none, [], lookup, insert, lookup-insert, beq_refl, sequence_eq,
}
use dotminecraft.Core.Text.{Str, Bytes}
use dotminecraft.Core.Name.{Name, to_string}
use dotminecraft.Net.Swarm.{PeerId}
use dotminecraft.Cli.Agent.{Request, TunnelMap, Surroundings, listening, handle_request}
use dotminecraft.Cli.Agent.Requests.{
  Serves, handle_request-resolve, resolve-parsed, tunnel_for-known,
}
use dotminecraft.Cli.Agent.Running.{
  Running, begin_agent, Asks, insert_tunnel, misses, binds, inserts, exits, AgentPath, stays,
  then_steps,
}

known-port :
    (token : Str) (req : Request) (name : Name) (world : Surroundings) (tunnels : TunnelMap)
    (port : ℕ)
    → Asks token req name
    → Serves (to_string name) port tunnels
    → handle_request token req world tunnels
      ≡ record { result = listening req.name port; tunnels = tunnels; spawned = none }
known-port token req name world tunnels port asks serves =
    handle_request-resolve token req world tunnels asks.op asks.authorized
    ∙ rw
        (
          resolve-parsed req.name name world tunnels asks.parsed,
          tunnel_for-known (to_string name) world tunnels port serves,
        )
        refl

inserted-Serves :
    (key : Str) (port : ℕ) (peer : PeerId) (m : TunnelMap)
    → Serves key port (insert key (port, peer) m)
inserted-Serves key port peer m =
    (peer, lookup-insert key key (port, peer) m ∙ rw (beq_refl key) refl)

-- The map keeps tunnels whose listener has exited: for each request with the token to resolve a valid
-- name, each port, and each peer that an `establish` of the name can give, a state of the agent is
-- reachable in which no listener runs and the request,
-- whatever `establish` and the binding of a port would give, is answered with that port and opens
-- nothing.
pub exited-reused :
    (token : Str) (removes : Bool) (Gives : Name → PeerId → Type 0) (file : Option Bytes)
    (req : Request) (name : Name) (port : ℕ) (peer : PeerId)
    → Asks token req name
    → Gives name peer
    → (s : Running) × AgentPath token removes Gives (begin_agent file) s
      × (s.listeners ≡ [])
      × ((world : Surroundings)
          → handle_request token req world s.tunnels
            ≡ record { result = listening req.name port; tunnels = s.tunnels; spawned = none })
unfolding begin_agent insert_tunnel lookup
exited-reused token removes Gives file req name port peer asks gives =
    let one = then_steps stays (misses req name asks refl) in
    let two = then_steps one (binds name [] [] port peer refl gives tt) in
    let three = then_steps two (inserts (to_string name) (port, peer) [] [] refl) in
    (
      _,
      then_steps three (exits (port, peer) [] [] refl),
      refl,
      λ world.
          known-port token req name world _ port asks
            (inserted-Serves (to_string name) port peer []),
    )
