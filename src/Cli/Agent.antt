-- ===== src/Cli/Agent.antt =====
-- crates/cli/src/agent.rs: the control endpoint that the mod talks to. A request and its answer are
-- values; JSON is a parameter. The map of tunnels is locked twice in a resolve, and what other
-- connections put into it in between is an argument, as are the results of `establish`, of the
-- binding of a port, and of `rtt_ms`.
pub mod Token
pub mod Requests
pub mod Origins
pub mod Running
pub mod Lines
use dotminecraft.Prelude.{
  ℕ, zero, suc, ◌+◌, ◌-◌, ◌*◌, ◌/◌, ◌%◌, ltb, ◌==◌, Bool, not, ◌&&◌, ◌||◌, Option, none, some, List,
  [], ◌∷◌, ◌++◌, length, is_empty, seq_eq, if◌then◌else◌, Map, lookup, insert, sequence_eq, Result,
  ok, err, ◌>>=◌,
}
use dotminecraft.Core.Text.{Str, Bytes, text, trim}
use dotminecraft.Core.Name.{Name, parse, to_string}
use dotminecraft.Net.Swarm.{PeerId}

-- `{:02x}`
unfoldable pub hex_digit : ℕ → ℕ
hex_digit d = if ltb d 10 then b'0' + d else b'a' + (d - 10)

-- `random_token` from the bytes that `getrandom` gave.
unfoldable pub token_from : Bytes → Str
unfolding hex_digit
token_from [] = []
token_from (b ∷ bytes) = hex_digit (b / 16) ∷ hex_digit (b % 16) ∷ token_from bytes

-- `^` and `|` on numbers of so many bits.
unfoldable pub bit_xor : ℕ → ℕ → ℕ → ℕ
bit_xor zero a b = 0
bit_xor (suc w) a b =
    let rest = bit_xor w (a / 2) (b / 2) in (if (a % 2) == (b % 2) then 0 else 1) + 2 * rest

unfoldable pub bit_or : ℕ → ℕ → ℕ → ℕ
bit_or zero a b = 0
bit_or (suc w) a b =
    let rest = bit_or w (a / 2) (b / 2) in
    (if ((a % 2) == 0) && ((b % 2) == 0) then 0 else 1) + 2 * rest

-- The fold over the zipped bytes.
unfoldable pub fold_differences : ℕ → Bytes → Bytes → ℕ
unfolding bit_xor bit_or
fold_differences acc (a ∷ xs) (b ∷ ys) = fold_differences (bit_or 8 acc (bit_xor 8 a b)) xs ys
fold_differences acc _ _ = acc

-- The texts are given by their bytes.
unfoldable pub token_ok : Bytes → Bytes → Bool
unfolding fold_differences
token_ok expected given =
    (length expected == length given) && (fold_differences 0 expected given == 0)

pub record Request : Type 0 where
  pub op : Str
  pub name : Str
  pub token : Str

pub data Response : Type 0 where
  alive : Response
  listening : (name : Str) (port : ℕ) → Response
  -- `-1` where there is no measurement
  round_trip : Option ℕ → Response
  refused : (error : Str) → Response

abbrev pub TunnelMap : Type 0
TunnelMap = Map Str (ℕ × PeerId)

-- What a request meets: the result of `establish`, the port that was bound, the tunnels that other
-- connections put into the map in the meantime, and the round-trip times.
pub record Surroundings : Type 0 where
  pub established : Result Str PeerId
  pub bound : Result Str ℕ
  pub meanwhile : List (Str × (ℕ × PeerId))
  pub rtt_ms : PeerId → Option ℕ

unfoldable pub insert_all : List (Str × (ℕ × PeerId)) → TunnelMap → TunnelMap
insert_all [] tunnels = tunnels
insert_all ((key, entry) ∷ more) tunnels = insert_all more (insert key entry tunnels)

-- The map afterwards, and the tunnel whose listener was spawned, if one was.
pub record Outcome (A : Type 0) : Type 0 where
  pub result : A
  pub tunnels : TunnelMap
  pub spawned : Option (ℕ × PeerId)

-- `resolve_and_tunnel` where the map has no tunnel for the key.
unfoldable pub open_tunnel :
    Str → Surroundings → Result Str PeerId → Result Str ℕ → TunnelMap → Outcome (Result Str ℕ)
unfolding insert_all
open_tunnel key world (err e) bound tunnels = record {
  result = err e;
  tunnels = insert_all world.meanwhile tunnels;
  spawned = none;
}
open_tunnel key world (ok peer) (err e) tunnels = record {
  result = err (text "binding ephemeral local port");
  tunnels = insert_all world.meanwhile tunnels;
  spawned = none;
}
open_tunnel key world (ok peer) (ok port) tunnels = record {
  result = ok port;
  tunnels = insert key (port, peer) (insert_all world.meanwhile tunnels);
  spawned = some (port, peer);
}

unfoldable pub tunnel_for :
    Str → Surroundings → Option (ℕ × PeerId) → TunnelMap → Outcome (Result Str ℕ)
unfolding open_tunnel
tunnel_for key world (some (port, peer)) tunnels = record {
  result = ok port;
  tunnels = tunnels;
  spawned = none;
}
tunnel_for key world none tunnels = open_tunnel key world world.established world.bound tunnels

unfoldable pub resolve_and_tunnel : Str → Surroundings → TunnelMap → Outcome (Result Str ℕ)
unfolding tunnel_for
resolve_and_tunnel name_str world tunnels = elim (parse name_str) [
  | err e ↦ record { result = err (text "invalid address"); tunnels = tunnels; spawned = none }
  | ok name ↦ tunnel_for (to_string name) world (lookup (to_string name) tunnels) tunnels
]

abbrev pub answer_resolve : Str → Result Str ℕ → Response
answer_resolve name (ok port) = listening name port
answer_resolve name (err e) = refused e

-- The peer of the tunnel for the name, and its round-trip time.
abbrev pub rtt_of : Surroundings → Option (ℕ × PeerId) → Option ℕ
rtt_of world none = none
rtt_of world (some (port, peer)) = world.rtt_ms peer

unfoldable pub rtt_answer : Str → Surroundings → TunnelMap → Option ℕ
rtt_answer name_str world tunnels = elim (parse name_str) [
  | err e ↦ none
  | ok name ↦ rtt_of world (lookup (to_string name) tunnels)
]

unfoldable pub handle_request : Str → Request → Surroundings → TunnelMap → Outcome Response
unfolding resolve_and_tunnel rtt_answer
handle_request token req world tunnels =
    if seq_eq req.op (text "ping")
    then record { result = alive; tunnels = tunnels; spawned = none }
    else if seq_eq req.op (text "resolve")
    then (if not (token_ok token req.token)
        then record {
          result = refused (text "unauthorized (bad or missing token)");
          tunnels = tunnels;
          spawned = none;
        }
        else let out = resolve_and_tunnel req.name world tunnels in
          record {
            result = answer_resolve req.name out.result;
            tunnels = out.tunnels;
            spawned = out.spawned;
          })
    else if seq_eq req.op (text "rtt")
    then (if not (token_ok token req.token)
        then record { result = refused (text "unauthorized"); tunnels = tunnels; spawned = none }
        else record {
          result = round_trip (rtt_answer req.name world tunnels);
          tunnels = tunnels;
          spawned = none;
        })
    else record {
      result = refused (text "unknown op: " ++ req.op);
      tunnels = tunnels;
      spawned = none;
    }

-- `serve_conn` over the lines that it reads, each with what its request meets; `from_str` is the
-- parser of requests.
module _ (from_str : Str → Result Str Request) (token : Str) where
  unfoldable pub answer_line : Str → Surroundings → TunnelMap → Outcome Response
  answer_line line world tunnels = elim (from_str line) [
    | ok req ↦ handle_request token req world tunnels
    | err e ↦ record {
      result = refused (text "bad request: " ++ e);
      tunnels = tunnels;
      spawned = none;
    }
  ]

  unfoldable pub serve_conn : List (Str × Surroundings) → TunnelMap → List Response × TunnelMap
  unfolding answer_line
  serve_conn [] tunnels = ([], tunnels)
  serve_conn ((line, world) ∷ lines) tunnels =
      let out = answer_line (trim line) world tunnels in
      let blank = is_empty (trim line) in
      let rest = serve_conn lines (if blank then tunnels else out.tunnels) in
      if blank then rest else (out.result ∷ rest.0, rest.1)
