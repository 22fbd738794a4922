-- ===== src/Cli/Agent/Running/Atomic.antt =====
-- The steps of the agent of crates/cli/src/agent.rs against its handler of one request.
use dotminecraft.Prelude.{
  ℕ, ◌≡◌, ◌≢◌, inl, inr, refl, Bool, true, Option, none, some, List, [], ◌∷◌, All, seq_eq,
  seq_eq_iff, Bool-cases, Result-cases, lookup, sequence_eq, Result, ok, err,
}
use dotminecraft.Core.Text.{Str, text}
use dotminecraft.Core.Name.{Name, parse, to_string}
use dotminecraft.Net.Swarm.{PeerId}
use dotminecraft.Cli.Agent.{
  Request, Surroundings, Outcome, insert_all, open_tunnel, tunnel_for, resolve_and_tunnel,
  handle_request, token_ok,
}
use dotminecraft.Cli.Agent.Running.{
  Running, Asks, insert_tunnel, misses, binds, inserts, AgentPath, stays, then_steps,
}

-- The listeners with the one that was spawned.
abbrev pub with_spawned : Option (ℕ × PeerId) → List (ℕ × PeerId) → List (ℕ × PeerId)
with_spawned none ls = ls
with_spawned (some l) ls = l ∷ ls

module _ (token : Str) (removes : Bool) (Gives : Name → PeerId → Type 0) where
  -- A row of steps that leaves this map, and spawns this listener, if one.
  abbrev pub RunsTo : {A : Type 0} → Running → Outcome A → Type 0
  RunsTo s out =
      (t : Running) × AgentPath token removes Gives s t
      × (t.tunnels ≡ out.tunnels)
      × (t.listeners ≡ with_spawned out.spawned s.listeners)

  open_tunnel-RunsTo :
      (s : Running) (req : Request) (name : Name) (world : Surroundings) (est : Result Str PeerId)
      (bound : Result Str ℕ)
      → Asks token req name
      → lookup (to_string name) s.tunnels ≡ none
      → world.meanwhile ≡ []
      → ((peer : PeerId) → est ≡ ok peer → Gives name peer)
      → ((port : ℕ) → bound ≡ ok port → All (λ l. l.0 ≢ port) s.listeners)
      → RunsTo s (open_tunnel (to_string name) world est bound s.tunnels)
  unfolding open_tunnel insert_all insert_tunnel
  open_tunnel-RunsTo s req name world (err e) bound asks absent quiet gives free =
      (s, stays, rw quiet refl, refl)
  open_tunnel-RunsTo s req name world (ok peer) (err e) asks absent quiet gives free =
      (s, stays, rw quiet refl, refl)
  open_tunnel-RunsTo s req name world (ok peer) (ok port) asks absent quiet gives free =
      let one = then_steps stays (misses req name asks absent) in
      let two =
        then_steps one
          (binds name [] s.opening port peer refl (gives peer refl) (free port refl)) in
      (
        _,
        then_steps two (inserts (to_string name) (port, peer) [] s.inserting refl),
        rw quiet refl,
        refl,
      )

  tunnel_for-RunsTo :
      (s : Running) (req : Request) (name : Name) (world : Surroundings)
      (known : Option (ℕ × PeerId))
      → Asks token req name
      → lookup (to_string name) s.tunnels ≡ known
      → world.meanwhile ≡ []
      → ((peer : PeerId) → world.established ≡ ok peer → Gives name peer)
      → ((port : ℕ) → world.bound ≡ ok port → All (λ l. l.0 ≢ port) s.listeners)
      → RunsTo s (tunnel_for (to_string name) world known s.tunnels)
  unfolding tunnel_for
  tunnel_for-RunsTo s req name world (some (port, peer)) asks there quiet gives free =
      (s, stays, refl, refl)
  tunnel_for-RunsTo s req name world none asks absent quiet gives free =
      open_tunnel-RunsTo s req name world world.established world.bound asks absent quiet gives free

  resolve-RunsTo :
      (s : Running) (req : Request) (world : Surroundings)
      → req.op ≡ text "resolve"
      → token_ok token req.token ≡ true
      → world.meanwhile ≡ []
      → ((name : Name) (peer : PeerId)
          → parse req.name ≡ ok name
          → world.established ≡ ok peer
          → Gives name peer)
      → ((port : ℕ) → world.bound ≡ ok port → All (λ l. l.0 ≢ port) s.listeners)
      → RunsTo s (resolve_and_tunnel req.name world s.tunnels)
  unfolding resolve_and_tunnel
  resolve-RunsTo s req world op good quiet gives free = elim (Result-cases (parse req.name)) [
    | inr (x, e) ↦ rw (e, resolve_and_tunnel) (s, stays, refl, refl)
    | inl (name, e) ↦
        let asks : Asks token req name = record { op = op; authorized = good; parsed = e } in
        rw (e, resolve_and_tunnel)
          (tunnel_for-RunsTo s req name world _ asks refl quiet (λ peer. gives name peer e) free)
  ]

  -- What a request does is a row of the agent's steps: where no other connection runs in between,
  -- its `establish` gives what one for the name can give, and the system gives a port that no listener has, there are steps that leave the same map of tunnels
  -- and spawn the same listener, if one.
  pub handle_request-RunsTo :
      (s : Running) (req : Request) (world : Surroundings)
      → world.meanwhile ≡ []
      → ((name : Name) (peer : PeerId)
          → parse req.name ≡ ok name
          → world.established ≡ ok peer
          → Gives name peer)
      → ((port : ℕ) → world.bound ≡ ok port → All (λ l. l.0 ≢ port) s.listeners)
      → RunsTo s (handle_request token req world s.tunnels)
  unfolding handle_request
  handle_request-RunsTo s req world quiet gives free =
      elim (Bool-cases (seq_eq req.op (text "ping"))) [
        | inl a ↦ rw a (s, stays, refl, refl)
        | inr a ↦ elim (Bool-cases (seq_eq req.op (text "resolve"))) [
          | inl b ↦ elim (Bool-cases (token_ok token req.token)) [
            | inl good ↦
                rw (a, b, good)
                  (resolve-RunsTo s req world ((seq_eq_iff req.op (text "resolve")).0 b) good quiet
                    gives free)
            | inr bad ↦ rw (a, b, bad) (s, stays, refl, refl)
          ]
          | inr b ↦ elim (Bool-cases (seq_eq req.op (text "rtt"))) [
            | inl d ↦ elim (Bool-cases (token_ok token req.token)) [
              | inl good ↦ rw (a, b, d, good) (s, stays, refl, refl)
              | inr bad ↦ rw (a, b, d, bad) (s, stays, refl, refl)
            ]
            | inr d ↦ rw (a, b, d) (s, stays, refl, refl)
          ]
        ]
      ]
