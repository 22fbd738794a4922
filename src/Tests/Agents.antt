-- ===== src/Tests/Agents.antt =====
-- Tests of crates/cli/src/agent.rs.
use dotminecraft.Prelude.{
  ◌≡◌, ◌≢◌, sym, ap, refl, true, false, none, some, List, [], ◌∷◌, All, lookup, insert, sequence_eq,
  Result, ok, err, arith,
}
use dotminecraft.Core.Text.{Str, text, len, trim, to_ascii_lowercase, split}
use dotminecraft.Core.Name.{
  parse, to_string, parse_labels, validate_keyid, validate_vanity, check_keyid_len, is_base32_lower,
}
use dotminecraft.Cli.Agent.{
  Request, alive, listening, round_trip, refused, TunnelMap, Surroundings, token_from, token_ok,
  resolve_and_tunnel, handle_request, serve_conn,
}
use dotminecraft.Cli.Agent.Token.{AreBytes}
use dotminecraft.Cli.Agent.Requests.{IsHarmless, LacksToken, serve_conn-unauthorized}

unfoldable pub serving : Unit {0}
unfolding parse parse_labels validate_keyid validate_vanity check_keyid_len is_base32_lower len trim
    to_ascii_lowercase split to_string lookup insert token_from token_ok resolve_and_tunnel
    handle_request serve_conn
serving = tt

abbrev pub token : Str
token = text "00ff"

token_tests :
    (token_from (0 ∷ 255 ∷ 26 ∷ []) ≡ text "00ff1a")
    × (token_ok token token ≡ true)
    × (token_ok token (text "00fe") ≡ false)
    × (token_ok token (text "00f") ≡ false)
unfolding serving
token_tests = (refl, refl, refl, refl)

abbrev pub full_name : Str
full_name = text "abcdefgh23456723.minecraft"

abbrev pub world : Surroundings
world = record {
  established = ok (1 ∷ []);
  bound = ok 5000;
  meanwhile = (text "other", (4000, [])) ∷ [];
  rtt_ms = λ p. some 12;
}

abbrev pub asks : Str → Str → Str → Request
asks op name given = record { op = op; name = name; token = given }

abbrev opened : TunnelMap
opened = (resolve_and_tunnel full_name world []).tunnels

request_tests :
    ((handle_request token (asks (text "ping") [] []) world []).result ≡ alive)
    × ((handle_request token (asks (text "resolve") full_name token) world []).result
        ≡ listening full_name 5000)
    × ((handle_request token (asks (text "resolve") full_name []) world []).spawned ≡ none)
    × ((handle_request token (asks (text "rtt") full_name token) world opened).result
        ≡ round_trip (some 12))
    × ((handle_request token (asks (text "rtt") full_name token) world []).result ≡ round_trip none)
    × ((handle_request token (asks (text "x") [] token) world []).result
        ≡ refused (text "unknown op: x"))
unfolding serving
request_tests = (refl, refl, refl, refl, refl, refl)

-- A parser that takes each line for a resolve with the line for its token.
abbrev from_line : Str → Result Str Request
from_line line = ok (asks (text "resolve") full_name line)

abbrev wrong : List (Str × Surroundings)
wrong = (text " bad ", world) ∷ (text " ", world) ∷ []

abbrev token_in : Result Str Request → Str
token_in (ok req) = req.token
token_in (err e) = []

wrong_token :
    (line : Str)
    → AreBytes line
    → token ≢ line
    → (req : Request) → from_line line ≡ ok req
    → AreBytes req.token × (token ≢ req.token)
wrong_token line h k req e =
    let p : line ≡ req.token = ap token_in e in (rw (sym p) h, rw (sym p) k)

lacks : All (LacksToken from_line token) wrong
unfolding serving
lacks = (wrong_token (text "bad") (omega arith) (λ e. cc), (wrong_token [] tt (λ e. cc), tt))

serve_conn-unauthorized_example :
    ((serve_conn from_line token wrong []).1 ≡ [])
    × All IsHarmless (serve_conn from_line token wrong []).0
serve_conn-unauthorized_example =
    serve_conn-unauthorized from_line token wrong [] (omega arith) lacks
