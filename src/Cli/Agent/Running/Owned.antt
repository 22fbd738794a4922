-- ===== src/Cli/Agent/Running/Owned.antt =====
-- Whom the tunnels of crates/cli/src/agent.rs lead to.
use dotminecraft.Prelude.{
  ℕ, ◌≡◌, refl, sym, ap, ◌∙◌, inl, inr, Bool, Option, some, List, All, All-without, lookup,
  sequence_eq, ok, ok-injective, subst,
}
use dotminecraft.Core.Text.{Str, Bytes}
use dotminecraft.Core.Crypto.{Crypto, IsSound}
use dotminecraft.Core.Identity.{Identity, public_bytes}
use dotminecraft.Core.Name.{Name, parse, to_string}
use dotminecraft.Core.Name.Bounds.{IsValid}
use dotminecraft.Core.Name.Parse.{parse_iff, parse-to_string}
use dotminecraft.Net.Swarm.{Swarm, PeerId, Multiaddr}
use dotminecraft.Net.Message.{DoctorInfo}
use dotminecraft.Cli.Tunnel.{Attempt, establish}
use dotminecraft.Cli.Tunnel.Secure.{IsUnforged, establish-owned}
use dotminecraft.Cli.Agent.Origins.{lookup-insert-cases}
use dotminecraft.Cli.Agent.Running.{
  Running, begin_agent, insert_tunnel, AgentStep, AgentPath, misses, gives_up, binds, inserts,
  exits, stops, stays, then_steps,
}

to_string-injective : (a b : Name) → IsValid a → IsValid b → to_string a ≡ to_string b → a ≡ b
to_string-injective a b v w e =
    ok-injective (sym (parse-to_string a v) ∙ ap parse e ∙ parse-to_string b w)

module _ (token : Str) (removes : Bool) (Gives : Name → PeerId → Type 0) where
  -- The peer is one that an `establish` can give of a valid name with this text.
  abbrev Given : Str → PeerId → Type 0
  Given key peer = (name : Name) × IsValid name × (to_string name ≡ key) × Gives name peer

  record Inv (s : Running) : Type 0 where
    names : All IsValid s.opening
    waiting : All (λ x. Given x.0 x.1.1) s.inserting
    entries :
        (key : Str) (entry : ℕ × PeerId) → lookup key s.tunnels ≡ some entry → Given key entry.1

  begin_agent-Inv : (file : Option Bytes) → Inv (begin_agent file)
  unfolding begin_agent lookup
  begin_agent-Inv file = record { names = tt; waiting = tt; entries = λ key entry e. cc }

  AgentStep-Inv : (s t : Running) → AgentStep token removes Gives s t → Inv s → Inv t
  unfolding insert_tunnel
  AgentStep-Inv s _ (misses req name asks absent) i = record {
    names = (((parse_iff req.name name).0 asks.parsed).0, i.names);
    waiting = i.waiting;
    entries = i.entries;
  }
  AgentStep-Inv s _ (gives_up name xs ys e) i = record {
    names = (All-without IsValid xs ys name (rw e at (i.names))).0;
    waiting = i.waiting;
    entries = i.entries;
  }
  AgentStep-Inv s _ (binds name xs ys port peer e gives free) i =
      let (names, valid) = All-without IsValid xs ys name (rw e at (i.names)) in
      record {
        names = names;
        waiting = ((name, valid, refl, gives), i.waiting);
        entries = i.entries;
      }
  AgentStep-Inv s _ (inserts key entry xs ys e) i =
      let (waiting, own) =
        All-without (λ x. Given x.0 x.1.1) xs ys (key, entry) (rw e at (i.waiting)) in
      record {
        names = i.names;
        waiting = waiting;
        entries = λ key' entry' found.
            elim (lookup-insert-cases key key' entry entry' s.tunnels found) [
              | inl (p, q) ↦ subst (λ x. Given x entry'.1) p (subst (λ x. Given key x.1) q own)
              | inr old ↦ i.entries key' entry' old
            ];
      }
  AgentStep-Inv s _ (exits l xs ys e) i = record {
    names = i.names;
    waiting = i.waiting;
    entries = i.entries;
  }
  AgentStep-Inv s _ (stops e) i = record {
    names = i.names;
    waiting = i.waiting;
    entries = i.entries;
  }

  AgentPath-Inv : (s t : Running) → AgentPath token removes Gives s t → Inv s → Inv t
  AgentPath-Inv s _ stays i = i
  AgentPath-Inv s t (then_steps p step) i = AgentStep-Inv _ t step (AgentPath-Inv s _ p i)

  -- A tunnel in the map under a valid name is to a peer that an `establish` of that name can give.
  tunnels-Gives :
      (file : Option Bytes) (s : Running) (name : Name) (port : ℕ) (peer : PeerId)
      → AgentPath token removes Gives (begin_agent file) s
      → IsValid name
      → lookup (to_string name) s.tunnels ≡ some (port, peer)
      → Gives name peer
  tunnels-Gives file s name port peer path valid found =
      let i = AgentPath-Inv (begin_agent file) s path (begin_agent-Inv file) in
      let (other, v, same, gives) = i.entries (to_string name) (port, peer) found in
      subst (λ n. Gives n peer) (to_string-injective other name v valid same) gives

module _ (c : Crypto) {S : Type 0} (sw : Swarm S) (Comes : Name → ℕ → List Attempt → Type 0) where
  -- The peer is what `establish` gives of the name, begun at some time in which such attempts come
  -- back as can come back.
  abbrev pub Establishes : Name → PeerId → Type 0
  Establishes name peer =
      (start : ℕ) × (attempts : List Attempt) × (dials : List Multiaddr) × Comes name start attempts
      × (establish sw c name start attempts ≡ (some (ok peer), dials))

  -- The agent's tunnels lead to the owner: whatever its connections do, and however they interleave,
  -- where each listener is spawned for the peer that the `establish` of its request gave, a tunnel in
  -- the map under a valid name is to the peer of the identity's key, if nothing that can come back in
  -- the attempts of an `establish` of that name is forged.
  pub agent-owned :
      (sound : IsSound c) (id : Identity) (token : Str) (removes : Bool) (file : Option Bytes)
      (s : Running) (name : Name) (port : ℕ) (peer : PeerId)
      → AgentPath token removes Establishes (begin_agent file) s
      → IsValid name
      → ((start : ℕ) (attempts : List Attempt)
          → Comes name start attempts
          → (vanity : Str) × (peer_id : Str) × (rounds : List (DoctorInfo × ℕ)) × IsUnforged c id
              vanity peer_id name.keyid rounds attempts)
      → lookup (to_string name) s.tunnels ≡ some (port, peer)
      → sw.peer_id_from_ed25519 (public_bytes c id) ≡ ok peer
  agent-owned sound id token removes file s name port peer path valid honest found =
      let (start, attempts, dials, comes, gives) =
        tunnels-Gives token removes Establishes file s name port peer path valid found in
      let (vanity, peer_id, rounds, unforged) = honest start attempts comes in
      (establish-owned c id vanity peer_id sound sw name rounds start attempts peer dials unforged
        gives).0
