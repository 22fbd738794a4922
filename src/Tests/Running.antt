-- ===== src/Tests/Running.antt =====
-- Tests of `run` of crates/cli/src/agent.rs.
use dotminecraft.Prelude.{
  arith, length, ℕ, List, sym, subst, ◌≡◌, refl, true, none, some, [], ◌∷◌, ◌++◌, lookup,
  filter_map, sequence_eq, nat_eq, Result, ok, err,
}
use dotminecraft.Core.Text.{Str, Bytes, text}
use dotminecraft.Core.Name.{Name, to_string}
use dotminecraft.Net.Swarm.{PeerId}
use dotminecraft.Cli.Keystore.{written, not_opened}
use dotminecraft.Cli.Agent.{Surroundings, listening, handle_request}
use dotminecraft.Cli.Agent.Lines.{split_lines, decode_lines, conn_lines}
use dotminecraft.Cli.Agent.Running.{
  Running, run_start, begin_agent, Asks, insert_tunnel, AgentPath, misses, binds, inserts, stops,
  stays, then_steps,
}
use dotminecraft.Cli.Agent.Running.Served.{IsBacked, FileTells, agent-IsBacked}
use dotminecraft.Cli.Agent.Running.Atomic.{RunsTo, handle_request-RunsTo}
use dotminecraft.Cli.Agent.Running.Stale.{exited-reused}
use dotminecraft.Cli.Agent.Running.Raced.{raced-listeners}
use dotminecraft.Cli.Agent.Running.Owned.{Establishes, agent-owned}
use dotminecraft.Core.Name.Bounds.{IsValid}
use dotminecraft.Core.Name.Parse.{parse_iff}
use dotminecraft.Net.Message.{DoctorInfo}
use dotminecraft.Cli.Tunnel.Secure.{IsUnforged}
use dotminecraft.Core.Identity.{public_bytes}
use dotminecraft.Cli.Agent.{Request}
use dotminecraft.Cli.Tunnel.{Attempt, dialled}
use dotminecraft.Tests.Toy.{toy, toy-IsSound}
use dotminecraft.Tests.ToyNet.{toy_net}
use dotminecraft.Tests.Records.{owner}
use dotminecraft.Tests.Tunnels.{tunnelling, name, info, tries, addrs, unforged, established}
use dotminecraft.Tests.Agents.{serving, token, full_name, world, asks}

running : Unit {0}
unfolding tunnelling serving run_start begin_agent insert_tunnel split_lines decode_lines conn_lines
running = tt

-- Nothing is said of what `establish` gives.
abbrev Anyone : Name → PeerId → Type 0
Anyone n peer = Unit {0}

abbrev control_json : ℕ → Str → Bytes
control_json port token = port ∷ token

abbrev contents : Bytes
contents = 4242 ∷ token

start_test :
    (run_start control_json (ok tt) (ok 4242) (ok (0 ∷ 255 ∷ [])) written none
      ≡ (some contents, ok (4242, token)))
    × (run_start control_json (ok tt) (ok 4242) (ok (0 ∷ 255 ∷ [])) not_opened none
        ≡ (none, err (text "writing control.json")))
unfolding running
start_test = (refl, refl)

abbrev full : Name
full = record { vanity = []; keyid = text "abcdefgh23456723" }

full-Asks : Asks token (asks (text "resolve") full_name token) full
unfolding running
full-Asks = record { op = refl; authorized = refl; parsed = refl }

-- A resolve that has opened its tunnel, and then Ctrl-C.
abbrev stopped : Running
stopped = record {
  control_file = none;
  tunnels = (full_name, (5000, 1 ∷ [])) ∷ [];
  opening = [];
  inserting = [];
  listeners = (5000, 1 ∷ []) ∷ [];
  exited = [];
  ended = true;
}

stopped-AgentPath : AgentPath token true Anyone (begin_agent (some contents)) stopped
unfolding running
stopped-AgentPath =
    let one =
      then_steps stays (misses (asks (text "resolve") full_name token) full full-Asks refl) in
    let two = then_steps one (binds full [] [] 5000 (1 ∷ []) refl tt tt) in
    let three = then_steps two (inserts full_name (5000, 1 ∷ []) [] [] refl) in
    then_steps three (stops refl)

agent-IsBacked_example :
    ((key : Str) (entry : ℕ × PeerId)
      → lookup key stopped.tunnels ≡ some entry
      → IsBacked stopped key entry)
    × FileTells contents true stopped
agent-IsBacked_example =
    agent-IsBacked control_json (ok tt) (ok 4242) (ok (0 ∷ 255 ∷ [])) written none (some contents)
      4242 token true Anyone stopped start_test.0 stopped-AgentPath

abbrev started : Running
started = begin_agent (some contents)

abbrev quiet : Surroundings
quiet = record world { meanwhile = [] }

handle_request-RunsTo_example :
    RunsTo token true Anyone started
      (handle_request token (asks (text "resolve") full_name token) quiet started.tunnels)
unfolding begin_agent
handle_request-RunsTo_example =
    handle_request-RunsTo token true Anyone started (asks (text "resolve") full_name token) quiet
      refl (λ n peer p e. tt) (λ port h. tt)

exited-reused_example :
    (s : Running) × AgentPath token true Anyone (begin_agent (some contents)) s
    × (s.listeners ≡ [])
    × ((world : Surroundings)
        → handle_request token (asks (text "resolve") full_name token) world s.tunnels
          ≡ record { result = listening full_name 5000; tunnels = s.tunnels; spawned = none })
exited-reused_example =
    exited-reused token true Anyone (some contents) (asks (text "resolve") full_name token) full
      5000 (1 ∷ []) full-Asks tt

-- A decoding that takes every line.
abbrev utf8 : Bytes → Result Str Str
utf8 l = ok l

lines_test : conn_lines utf8 (text "ab" ++ 10 ∷ 10 ∷ text "c") ≡ text "ab" ∷ [] ∷ text "c" ∷ []
unfolding running
lines_test = refl

raced-listeners_example :
    (s : Running) × AgentPath token true Anyone (begin_agent (some contents)) s
    × (s.opening ≡ [])
    × (s.inserting ≡ [])
    × (length s.tunnels ≡ 1)
    × (length s.listeners ≡ 2)
raced-listeners_example =
    raced-listeners token true Anyone (some contents) (asks (text "resolve") full_name token) full
      full-Asks (5000, 1 ∷ []) ((5001, 1 ∷ []) ∷ []) (tt, ((omega arith, tt), tt)) (tt, (tt, tt))

-- A resolve of the owner's name.
abbrev wanted : Request
wanted = asks (text "resolve") (to_string name) token

wanted-Asks : Asks token wanted name
unfolding running
wanted-Asks = record { op = refl; authorized = refl; parsed = refl }

abbrev owned : Running
owned = record started {
  tunnels = (to_string name, (5000, owner.signing)) ∷ [];
  listeners = (5000, owner.signing) ∷ [];
}

-- What comes back is that of the test of `establish`.
abbrev Comes : Name → ℕ → List Attempt → Type 0
Comes asked start attempts = (start ≡ 0) × (attempts ≡ tries)

gives : Establishes toy toy_net Comes name owner.signing
gives = (0, tries, filter_map (dialled toy_net) addrs, (refl, refl), established)

name-IsValid : IsValid name
name-IsValid = ((parse_iff wanted.name name).0 wanted-Asks.parsed).0

honest :
    (start : ℕ) (attempts : List Attempt)
    → Comes name start attempts
    → (vanity : Str) × (peer_id : Str) × (rounds : List (DoctorInfo × ℕ)) × IsUnforged toy owner
        vanity peer_id name.keyid rounds attempts
honest start attempts (e, same) = (
  [],
  owner.signing,
  (info, 1000) ∷ [],
  subst (λ l. IsUnforged toy owner [] owner.signing name.keyid ((info, 1000) ∷ []) l) (sym same)
      unforged,
)

owned-AgentPath : AgentPath token true (Establishes toy toy_net Comes) started owned
unfolding running
owned-AgentPath =
    then_steps
      (then_steps (then_steps stays (misses wanted name wanted-Asks refl))
        (binds name [] [] 5000 owner.signing refl gives tt))
      (inserts (to_string name) (5000, owner.signing) [] [] refl)

agent-owned_example : toy_net.peer_id_from_ed25519 (public_bytes toy owner) ≡ ok owner.signing
unfolding owned-AgentPath running
agent-owned_example =
    agent-owned toy toy_net Comes toy-IsSound owner token true (some contents) owned name 5000
      owner.signing owned-AgentPath name-IsValid honest refl
