-- ===== src/Cli/Agent/Running.antt =====
-- `run` of crates/cli/src/agent.rs: the agent with all its connections at once, as a step relation.
-- A resolve that finds no tunnel is cut where it gives up the lock, so that other connections run in
-- between; the requests that change nothing are no steps.
pub mod Served
pub mod Atomic
pub mod Stale
pub mod Raced
pub mod Owned
use dotminecraft.Prelude.{
  ℕ, ◌≡◌, ◌≢◌, Bool, true, false, Option, none, some, List, [], ◌∷◌, ◌++◌, All, lookup, insert,
  sequence_eq, Result, ok, err, if◌then◌else◌,
}
use dotminecraft.Core.Text.{Str, Bytes, text}
use dotminecraft.Core.Name.{Name, parse, to_string}
use dotminecraft.Net.Swarm.{PeerId}
use dotminecraft.Cli.Keystore.{Write, written_file, write_result}
use dotminecraft.Cli.Agent.{Request, TunnelMap, token_from, token_ok}

-- The agent's file `control.json`, the map of tunnels, and its tasks.
pub record Running : Type 0 where
  pub control_file : Option Bytes
  pub tunnels : TunnelMap
  -- the names of the resolves that found no tunnel and have bound no port yet
  pub opening : List Name
  -- those that have spawned their listener and not taken the lock again
  pub inserting : List (Str × (ℕ × PeerId))
  -- the listeners that run, and those whose `run_connect` has returned
  pub listeners : List (ℕ × PeerId)
  pub exited : List (ℕ × PeerId)
  pub ended : Bool

-- What `json!` makes of the port and the token is an argument.
module _ (control_json : ℕ → Str → Bytes) where
  -- `control.json` once the port is bound and the token is drawn.
  abbrev announce :
      Write → Option Bytes → ℕ → Result Str Bytes → Option Bytes × Result Str (ℕ × Str)
  announce write old port (err e) = (old, err e)
  announce write old port (ok random) = (
    written_file write (control_json port (token_from random)) old,
    elim (write_result write) [
      | ok u ↦ ok (port, token_from random)
      | err e ↦ err (text "writing control.json")
    ],
  )

  -- `run` up to its loop, from what `net::spawn`, the binding of the port and `getrandom` gave.
  unfoldable pub run_start :
      {S : Type 0}
      → Result Str S
      → Result Str ℕ
      → Result Str Bytes
      → Write
      → Option Bytes
      → Option Bytes × Result Str (ℕ × Str)
  run_start (err e) bound random write old = (old, err e)
  run_start (ok s) (err e) random write old = (old, err (text "binding agent control port"))
  run_start (ok s) (ok port) random write old = announce write old port random

unfoldable pub begin_agent : Option Bytes → Running
begin_agent file = record {
  control_file = file;
  tunnels = [];
  opening = [];
  inserting = [];
  listeners = [];
  exited = [];
  ended = false;
}

-- The request is a resolve with the token, for this name.
pub record Asks (token : Str) (req : Request) (name : Name) : Type 0 where
  pub op : req.op ≡ text "resolve"
  pub authorized : token_ok token req.token ≡ true
  pub parsed : parse req.name ≡ ok name

unfoldable pub insert_tunnel : Str → ℕ × PeerId → Running → Running
insert_tunnel key entry s = record s { tunnels = insert key entry s.tunnels }

-- What the agent runs with: its token, whether its file can be removed, and which peers the `establish`
-- of a name can give.
module _ (token : Str) (removes_files : Bool) (Gives : Name → PeerId → Type 0) where
  pub data AgentStep (s : Running) : Running → Type 0 where
    -- the first lock of a resolve that finds no tunnel
    misses :
        (req : Request) (name : Name)
        → Asks token req name
        → lookup (to_string name) s.tunnels ≡ none
        → AgentStep s (record s { opening = name ∷ s.opening })
    -- `establish` or the binding of a port fails
    gives_up :
        (name : Name) (xs ys : List Name)
        → s.opening ≡ xs ++ name ∷ ys
        → AgentStep s (record s { opening = xs ++ ys })
    -- `establish` for the name gives a peer, the system gives a port that no listener has, and the
    -- listener is spawned
    binds :
        (name : Name) (xs ys : List Name) (port : ℕ) (peer : PeerId)
        → s.opening ≡ xs ++ name ∷ ys
        → Gives name peer
        → All (λ l. l.0 ≢ port) s.listeners
        → AgentStep s (record s {
          opening = xs ++ ys;
          inserting = (to_string name, (port, peer)) ∷ s.inserting;
          listeners = (port, peer) ∷ s.listeners;
        })
    -- the second lock
    inserts :
        (key : Str) (entry : ℕ × PeerId) (xs ys : List (Str × (ℕ × PeerId)))
        → s.inserting ≡ xs ++ (key, entry) ∷ ys
        → AgentStep s (record (insert_tunnel key entry s) { inserting = xs ++ ys })
    -- `run_connect` returns, since `accept` has failed
    exits :
        (l : ℕ × PeerId) (xs ys : List (ℕ × PeerId))
        → s.listeners ≡ xs ++ l ∷ ys
        → AgentStep s (record s { listeners = xs ++ ys; exited = l ∷ s.exited })
    -- Ctrl-C, or the control port fails
    stops :
        s.ended ≡ false
        → AgentStep s (record s {
          control_file = if removes_files then none else s.control_file;
          ended = true;
        })

  pub data AgentPath (s : Running) : Running → Type 0 where
    stays : AgentPath s s
    then_steps : {t u : Running} → AgentPath s t → AgentStep t u → AgentPath s u
