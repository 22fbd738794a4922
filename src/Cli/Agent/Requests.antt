-- ===== src/Cli/Agent/Requests.antt =====
-- `handle_request`, `resolve_and_tunnel` and `serve_conn` of crates/cli/src/agent.rs.
use dotminecraft.Prelude.{
  ℕ, ◌≡◌, ◌≢◌, ◌⊎◌, inl, inr, refl, sym, ◌∙◌, true, false, Option, none, some, List, [], ◌∷◌, All,
  seq_eq, is_empty, Bool-cases, lookup, lookup-insert, beq_refl, sequence_eq, Result, ok, err,
  Result-cases, arith,
}
use dotminecraft.Core.Text.{Str, text, trim}
use dotminecraft.Core.Name.{Name, parse, to_string}
use dotminecraft.Net.Swarm.{PeerId}
use dotminecraft.Cli.Agent.{
  Request, Response, alive, listening, refused, TunnelMap, Surroundings, Outcome, insert_all,
  open_tunnel, tunnel_for, resolve_and_tunnel, answer_resolve, handle_request, answer_line,
  serve_conn, token_ok,
}
use dotminecraft.Cli.Agent.Token.{AreBytes, token_ok_iff}

-- The answer opens nothing: the request was a ping, or it was refused.
abbrev pub IsHarmless : Response → Type 0
IsHarmless r = (r ≡ alive) ⊎ ((e : Str) × (r ≡ refused e))

-- No tunnel was spawned, the map is the same, and the answer opens nothing.
abbrev pub IsUntouched : TunnelMap → Outcome Response → Type 0
IsUntouched tunnels out = (out.tunnels ≡ tunnels) × (out.spawned ≡ none) × IsHarmless out.result

handle_request-denied :
    (token : Str) (req : Request) (world : Surroundings) (tunnels : TunnelMap)
    → token_ok token req.token ≡ false
    → IsUntouched tunnels (handle_request token req world tunnels)
unfolding handle_request
handle_request-denied token req world tunnels h = elim (Bool-cases (seq_eq req.op (text "ping"))) [
  | inl a ↦ rw a (refl, refl, inl refl)
  | inr a ↦ elim (Bool-cases (seq_eq req.op (text "resolve"))) [
    | inl b ↦ rw (a, b, h) (refl, refl, inr (_, refl))
    | inr b ↦ elim (Bool-cases (seq_eq req.op (text "rtt"))) [
      | inl d ↦ rw (a, b, d, h) (refl, refl, inr (_, refl))
      | inr d ↦ rw (a, b, d) (refl, refl, inr (_, refl))
    ]
  ]
]

-- Without the agent's token no request opens a tunnel or changes the map of tunnels, and none is
-- answered with a port or a round-trip time.
pub handle_request-unauthorized :
    (token : Str) (req : Request) (world : Surroundings) (tunnels : TunnelMap)
    → AreBytes token
    → AreBytes req.token
    → token ≢ req.token
    → IsUntouched tunnels (handle_request token req world tunnels)
handle_request-unauthorized token req world tunnels h k other =
    elim (Bool-cases (token_ok token req.token)) [
      | inl same ↦ absurd (other ((token_ok_iff token req.token h k).0 same))
      | inr denied ↦ handle_request-denied token req world tunnels denied
    ]

-- What a line gives, if it is a request, has another token than the agent's.
abbrev pub LacksToken : (Str → Result Str Request) → Str → Str × Surroundings → Type 0
LacksToken from_str token (line, world) =
    (req : Request) → from_str (trim line) ≡ ok req → AreBytes req.token × (token ≢ req.token)

answer_line-unauthorized :
    (from_str : Str → Result Str Request) (token line : Str) (world : Surroundings)
    (tunnels : TunnelMap)
    → AreBytes token
    → ((req : Request) → from_str line ≡ ok req → AreBytes req.token × (token ≢ req.token))
    → IsUntouched tunnels (answer_line from_str token line world tunnels)
unfolding answer_line
answer_line-unauthorized from_str token line world tunnels h lacks =
    elim (Result-cases (from_str line)) [
      | inl (req, e) ↦
          let (k, other) = lacks req e in
          rw (e, answer_line) (handle_request-unauthorized token req world tunnels h k other)
      | inr (x, e) ↦ rw (e, answer_line) (refl, refl, inr (_, refl))
    ]

-- A connection on which no request has the agent's token changes no tunnel, and every one of its
-- answers tells that the agent is alive or refuses.
pub serve_conn-unauthorized :
    (from_str : Str → Result Str Request) (token : Str) (lines : List (Str × Surroundings))
    (tunnels : TunnelMap)
    → AreBytes token
    → All (LacksToken from_str token) lines
    → ((serve_conn from_str token lines tunnels).1 ≡ tunnels)
      × All IsHarmless (serve_conn from_str token lines tunnels).0
unfolding serve_conn
serve_conn-unauthorized from_str token [] tunnels h k = (refl, tt)
serve_conn-unauthorized from_str token ((line, world) ∷ lines) tunnels h (lacks, k) =
    elim (Bool-cases (is_empty (trim line))) [
      | inl blank ↦ rw blank (serve_conn-unauthorized from_str token lines tunnels h k)
      | inr full ↦
          let (same, opened, harmless) =
            answer_line-unauthorized from_str token (trim line) world tunnels h lacks in
          let (kept, rest) = serve_conn-unauthorized from_str token lines tunnels h k in
          rw (full, same) (kept, (harmless, rest))
    ]

-- A resolve that is let through gives what `resolve_and_tunnel` gives.
pub handle_request-resolve :
    (token : Str) (req : Request) (world : Surroundings) (tunnels : TunnelMap)
    → req.op ≡ text "resolve"
    → token_ok token req.token ≡ true
    → handle_request token req world tunnels ≡ record {
      result = answer_resolve req.name (resolve_and_tunnel req.name world tunnels).result;
      tunnels = (resolve_and_tunnel req.name world tunnels).tunnels;
      spawned = (resolve_and_tunnel req.name world tunnels).spawned;
    }
unfolding handle_request
handle_request-resolve token req world tunnels op h = rw (op, h) refl

pub resolve-parsed :
    (name_str : Str) (name : Name) (world : Surroundings) (tunnels : TunnelMap)
    → parse name_str ≡ ok name
    → resolve_and_tunnel name_str world tunnels
      ≡ tunnel_for (to_string name) world (lookup (to_string name) tunnels) tunnels
unfolding resolve_and_tunnel
resolve-parsed name_str name world tunnels e = rw (e, resolve_and_tunnel) refl

resolve-IsParsed :
    (name_str : Str) (world : Surroundings) (tunnels : TunnelMap) (port : ℕ)
    → (resolve_and_tunnel name_str world tunnels).result ≡ ok port
    → (name : Name) × (parse name_str ≡ ok name)
unfolding resolve_and_tunnel
resolve-IsParsed name_str world tunnels port h = elim (Result-cases (parse name_str)) [
  | inl (name, e) ↦ (name, e)
  | inr (x, e) ↦ cc (rw (e, resolve_and_tunnel) at h)
]

-- The map has a tunnel with this port under the key.
abbrev pub Serves : Str → ℕ → TunnelMap → Type 0
Serves key port tunnels = (peer : PeerId) × (lookup key tunnels ≡ some (port, peer))

open_tunnel-Serves :
    (key : Str) (world : Surroundings) (peer : Result Str PeerId) (bound : Result Str ℕ)
    (tunnels : TunnelMap) (port : ℕ)
    → (open_tunnel key world peer bound tunnels).result ≡ ok port
    → Serves key port (open_tunnel key world peer bound tunnels).tunnels
unfolding open_tunnel
open_tunnel-Serves key world (err e) bound tunnels port h = cc
open_tunnel-Serves key world (ok peer) (err e) tunnels port h = cc
open_tunnel-Serves key world (ok peer) (ok p) tunnels port h =
    let same : p ≡ port = ground arith in
    let all = insert_all world.meanwhile tunnels in
    (peer, lookup-insert key key (p, peer) all ∙ rw (beq_refl key, same) refl)

tunnel_for-Serves :
    (key : Str) (world : Surroundings) (known : Option (ℕ × PeerId)) (tunnels : TunnelMap)
    (port : ℕ)
    → lookup key tunnels ≡ known
    → (tunnel_for key world known tunnels).result ≡ ok port
    → Serves key port (tunnel_for key world known tunnels).tunnels
unfolding tunnel_for
tunnel_for-Serves key world none tunnels port e h =
    open_tunnel-Serves key world world.established world.bound tunnels port h
tunnel_for-Serves key world (some (p, peer)) tunnels port e h =
    let same : p ≡ port = ground arith in (peer, rw same at e)

pub tunnel_for-known :
    (key : Str) (world : Surroundings) (tunnels : TunnelMap) (port : ℕ)
    → Serves key port tunnels
    → tunnel_for key world (lookup key tunnels) tunnels
      ≡ record { result = ok port; tunnels = tunnels; spawned = none }
unfolding tunnel_for
tunnel_for-known key world tunnels port (peer, e) = rw e refl

-- A name that has a tunnel is resolved to it: when a resolve has given a port, a next one with
-- the token and a text that parses as the same name gives that port, opens nothing and leaves the
-- map as it is, whatever `establish` or the binding of a port would give.
pub resolve-reused :
    (name_str : Str) (world later : Surroundings) (tunnels : TunnelMap) (port : ℕ) (token : Str)
    (req : Request)
    → (resolve_and_tunnel name_str world tunnels).result ≡ ok port
    → req.op ≡ text "resolve"
    → token_ok token req.token ≡ true
    → parse req.name ≡ parse name_str
    → handle_request token req later (resolve_and_tunnel name_str world tunnels).tunnels ≡ record {
      result = listening req.name port;
      tunnels = (resolve_and_tunnel name_str world tunnels).tunnels;
      spawned = none;
    }
resolve-reused name_str world later tunnels port token req h op good same =
    let (name, e) = resolve-IsParsed name_str world tunnels port h in
    let key = to_string name in
    let q = resolve-parsed name_str name world tunnels e in
    let after = (resolve_and_tunnel name_str world tunnels).tunnels in
    let serves : Serves key port after =
      rw (sym q) at
        (tunnel_for-Serves key world (lookup key tunnels) tunnels port refl (rw q at h)) in
    let r : resolve_and_tunnel req.name later after
        ≡ record { result = ok port; tunnels = after; spawned = none } =
      resolve-parsed req.name name later after (same ∙ e)
      ∙ tunnel_for-known key later after port serves in
    handle_request-resolve token req later after op good ∙ rw r refl
