-- ===== src/Cli/Agent/Running/Served.antt =====
-- What holds of the agent of crates/cli/src/agent.rs while its connections interleave.
use dotminecraft.Prelude.{
  ℕ, ◌≡◌, ◌≢◌, ◌⊎◌, inl, inr, refl, Bool, true, false, Option, none, some, List, [], ◌∷◌, ◌++◌, All,
  All-without, All-map, Elem, Elem-without, lookup, sequence_eq, if◌then◌else◌, Result, ok, err,
}
use dotminecraft.Core.Text.{Str, Bytes}
use dotminecraft.Core.Name.{Name, to_string}
use dotminecraft.Core.Name.Bounds.{IsValid}
use dotminecraft.Core.Name.Parse.{parse_iff}
use dotminecraft.Net.Swarm.{PeerId}
use dotminecraft.Cli.Keystore.{Write, written, not_opened, broken_after}
use dotminecraft.Cli.Agent.Origins.{lookup-insert-cases}
use dotminecraft.Cli.Agent.Running.{
  Running, run_start, begin_agent, insert_tunnel, AgentStep, misses, gives_up, binds, inserts,
  exits, stops, AgentPath, stays, then_steps,
}

-- The key is what a valid name prints.
abbrev pub IsKey : Str → Type 0
IsKey key = (name : Name) × IsValid name × (to_string name ≡ key)

abbrev Ports : List (ℕ × PeerId) → Type 0
Ports [] = Unit
Ports ((port, peer) ∷ ls) = All (λ l. l.0 ≢ port) ls × Ports ls

-- The tunnel is for a valid name, and its listener runs, or has run.
abbrev pub IsBacked : Running → Str → ℕ × PeerId → Type 0
IsBacked s key entry = IsKey key × (Elem entry s.listeners ⊎ Elem entry s.exited)

-- Until the agent ends its file tells the port and the token; then there is none, if it can be removed.
abbrev pub FileTells : Bytes → Bool → Running → Type 0
FileTells contents removes s =
    if s.ended then (removes ≡ true → s.control_file ≡ none) else s.control_file ≡ some contents

record Inv (contents : Bytes) (removes : Bool) (s : Running) : Type 0 where
  file : FileTells contents removes s
  keys : All IsValid s.opening
  waiting : All (λ x. IsBacked s x.0 x.1) s.inserting
  backed :
      (key : Str) (entry : ℕ × PeerId) → lookup key s.tunnels ≡ some entry → IsBacked s key entry
  ports : Ports s.listeners

Ports-without :
    (xs ys : List (ℕ × PeerId)) (l : ℕ × PeerId) → Ports (xs ++ l ∷ ys) → Ports (xs ++ ys)
Ports-without [] ys l (h, k) = k
Ports-without (x ∷ xs) ys l (h, k) =
    ((All-without (λ m. m.0 ≢ x.0) xs ys l h).0, Ports-without xs ys l k)

file-stops :
    (contents : Bytes) (removes : Bool) (s : Running)
    → s.ended ≡ false
    → FileTells contents removes s
    → removes ≡ true
    → (if removes then none else s.control_file) ≡ none
file-stops contents removes s e h r = rw r refl

-- A backed tunnel stays backed when a listener is added.
grown-IsBacked :
    (s t : Running) (l : ℕ × PeerId)
    → t.listeners ≡ l ∷ s.listeners
    → t.exited ≡ s.exited
    → (key : Str) (entry : ℕ × PeerId) → IsBacked s key entry
    → IsBacked t key entry
grown-IsBacked s t l e x key entry (k, inl h) = (k, inl (rw e (inr h)))
grown-IsBacked s t l e x key entry (k, inr h) = (k, inr (rw x h))

exits-IsBacked :
    (s : Running) (l : ℕ × PeerId) (xs ys : List (ℕ × PeerId)) (key : Str) (entry : ℕ × PeerId)
    → s.listeners ≡ xs ++ l ∷ ys
    → IsBacked s key entry
    → IsBacked (record s { listeners = xs ++ ys; exited = l ∷ s.exited }) key entry
exits-IsBacked s l xs ys key entry e (k, inr h) = (k, inr (inr h))
exits-IsBacked s l xs ys key entry e (k, inl h) = elim (Elem-without entry l xs ys (rw e at h)) [
  | inl same ↦ (k, inr (inl same))
  | inr there ↦ (k, inl there)
]

AgentStep-Inv :
    (contents : Bytes) (token : Str) (removes : Bool) (Gives : Name → PeerId → Type 0)
    (s t : Running)
    → AgentStep token removes Gives s t
    → Inv contents removes s
    → Inv contents removes t
unfolding insert_tunnel
AgentStep-Inv contents token removes Gives s _ (misses req name asks absent) i = record {
  file = i.file;
  keys = (((parse_iff req.name name).0 asks.parsed).0, i.keys);
  waiting = i.waiting;
  backed = i.backed;
  ports = i.ports;
}
AgentStep-Inv contents token removes Gives s _ (gives_up name xs ys e) i = record {
  file = i.file;
  keys = (All-without IsValid xs ys name (rw e at (i.keys))).0;
  waiting = i.waiting;
  backed = i.backed;
  ports = i.ports;
}
AgentStep-Inv contents token removes Gives s _ (binds name xs ys port peer e gives free) i =
    let (keys, named) = All-without IsValid xs ys name (rw e at (i.keys)) in
    let t = record s {
      opening = xs ++ ys;
      inserting = (to_string name, (port, peer)) ∷ s.inserting;
      listeners = (port, peer) ∷ s.listeners;
    } in
    record {
      file = i.file;
      keys = keys;
      waiting = (
        ((name, named, refl), inl (inl refl)),
        All-map (λ x h. grown-IsBacked s t (port, peer) refl refl x.0 x.1 h) s.inserting i.waiting,
      );
      backed = λ k x h. grown-IsBacked s t (port, peer) refl refl k x (i.backed k x h);
      ports = (free, i.ports);
    }
AgentStep-Inv contents token removes Gives s _ (inserts key entry xs ys e) i =
    let (waiting, backed) =
      All-without (λ x. IsBacked s x.0 x.1) xs ys (key, entry) (rw e at (i.waiting)) in
    record {
      file = i.file;
      keys = i.keys;
      waiting = waiting;
      backed = λ k x h. elim (lookup-insert-cases key k entry x s.tunnels h) [
        | inl (p, q) ↦ rw (p, q) at backed
        | inr old ↦ i.backed k x old
      ];
      ports = i.ports;
    }
AgentStep-Inv contents token removes Gives s _ (exits l xs ys e) i = record {
  file = i.file;
  keys = i.keys;
  waiting = All-map (λ x h. exits-IsBacked s l xs ys x.0 x.1 e h) s.inserting i.waiting;
  backed = λ k x h. exits-IsBacked s l xs ys k x e (i.backed k x h);
  ports = Ports-without xs ys l (rw e at (i.ports));
}
AgentStep-Inv contents token removes Gives s _ (stops e) i = record {
  file = file-stops contents removes s e i.file;
  keys = i.keys;
  waiting = i.waiting;
  backed = i.backed;
  ports = i.ports;
}

AgentPath-Inv :
    (contents : Bytes) (token : Str) (removes : Bool) (Gives : Name → PeerId → Type 0)
    (s t : Running)
    → AgentPath token removes Gives s t
    → Inv contents removes s
    → Inv contents removes t
AgentPath-Inv contents token removes Gives s _ stays i = i
AgentPath-Inv contents token removes Gives s t (then_steps p step) i =
    AgentStep-Inv contents token removes Gives _ t step
      (AgentPath-Inv contents token removes Gives s _ p i)

module _ (control_json : ℕ → Str → Bytes) where
  -- The file that a start leaves which succeeds.
  run_start-file :
      {S : Type 0} (spawned : Result Str S) (bound : Result Str ℕ) (random : Result Str Bytes)
      (write : Write) (old file : Option Bytes) (port : ℕ) (token : Str)
      → run_start control_json spawned bound random write old ≡ (file, ok (port, token))
      → file ≡ some (control_json port token)
  unfolding run_start
  run_start-file (err e) bound random write old file port token h = cc
  run_start-file (ok s) (err e) random write old file port token h = cc
  run_start-file (ok s) (ok p) (err e) write old file port token h = cc
  run_start-file (ok s) (ok p) (ok r) written old file port token h = cc
  run_start-file (ok s) (ok p) (ok r) not_opened old file port token h = cc
  run_start-file (ok s) (ok p) (ok r) (broken_after n) old file port token h = cc

  -- Whatever connections do, however their requests interleave, and whatever `establish` gives: once the agent has started,
  -- each tunnel in its map is under the text of a valid name and has a listener that runs or has run;
  -- and its control file tells the port and the token until it ends, and is then gone if it can be
  -- removed.
  pub agent-IsBacked :
      {S : Type 0} (spawned : Result Str S) (bound : Result Str ℕ) (random : Result Str Bytes)
      (write : Write) (old file : Option Bytes) (port : ℕ) (token : Str) (removes : Bool)
      (Gives : Name → PeerId → Type 0) (s : Running)
      → run_start control_json spawned bound random write old ≡ (file, ok (port, token))
      → AgentPath token removes Gives (begin_agent file) s
      → ((key : Str) (entry : ℕ × PeerId)
          → lookup key s.tunnels ≡ some entry
          → IsBacked s key entry)
        × FileTells (control_json port token) removes s
  unfolding begin_agent lookup
  agent-IsBacked spawned bound random write old file port token removes Gives s h path =
      let i =
        AgentPath-Inv (control_json port token) token removes Gives (begin_agent file) s path
          (record {
            file = run_start-file spawned bound random write old file port token h;
            keys = tt;
            waiting = tt;
            backed = λ k x q. cc;
            ports = tt;
          }) in
      (i.backed, i.file)
