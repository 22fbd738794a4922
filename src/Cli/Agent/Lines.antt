-- ===== src/Cli/Agent/Lines.antt =====
-- The reading of a control connection in crates/cli/src/agent.rs: at most 64 KiB, line by line, until
-- a line is no UTF-8. The decoding is an argument. The `\r` before a line feed is left to `trim`.
use dotminecraft.Prelude.{
  ℕ, suc, ◌*◌, ◌≤◌, ◌≡◌, ◌≢◌, ◌==◌, ==_iff, inl, inr, refl, ap, Bool-cases, List, [], ◌∷◌, ◌++◌,
  map, length, take, take-all, All, Result, ok, err, if◌then◌else◌, nat_eq,
}
use dotminecraft.Core.Text.{Str, Bytes}
use dotminecraft.Cli.Agent.{Request, Response, TunnelMap, Surroundings, serve_conn}

abbrev pub max_conn_bytes : ℕ
max_conn_bytes = 64 * 1024

abbrev longer_line : ℕ → List Bytes → List Bytes
longer_line b [] = (b ∷ []) ∷ []
longer_line b (l ∷ ls) = (b ∷ l) ∷ ls

-- The lines of what was read; what follows the last line feed is one, if it is not empty.
unfoldable pub split_lines : Bytes → List Bytes
split_lines [] = []
split_lines (b ∷ bs) = let ls = split_lines bs in if b == 10 then [] ∷ ls else longer_line b ls

-- Lines that are sent, each with its line feed.
abbrev pub sent : List (Bytes × Str) → Bytes
sent [] = []
sent ((l, s) ∷ lines) = l ++ 10 ∷ sent lines

module _ (from_utf8 : Bytes → Result Str Str) where
  -- The lines up to the first that is no UTF-8.
  unfoldable pub decode_lines : List Bytes → List Str
  decode_lines [] = []
  decode_lines (l ∷ ls) =
      let rest = decode_lines ls in elim (from_utf8 l) [ ok s ↦ s ∷ rest | err e ↦ [] ]

  unfoldable pub conn_lines : Bytes → List Str
  unfolding split_lines decode_lines
  conn_lines bytes = decode_lines (split_lines (take max_conn_bytes bytes))

  -- `serve_conn` on the bytes that come; the argument gives what the request on each line meets.
  abbrev number : (ℕ → Surroundings) → ℕ → List Str → List (Str × Surroundings)
  number meets i [] = []
  number meets i (line ∷ lines) = (line, meets i) ∷ number meets (suc i) lines

  unfoldable pub serve_bytes :
      (Str → Result Str Request)
      → Str
      → (ℕ → Surroundings)
      → Bytes
      → TunnelMap
      → List Response × TunnelMap
  unfolding conn_lines
  serve_bytes from_str token meets bytes tunnels =
      serve_conn from_str token (number meets 0 (conn_lines bytes)) tunnels

  -- It has no line feed inside, and is the text.
  abbrev pub IsLine : Bytes × Str → Type 0
  IsLine (l, s) = All (λ b. b ≢ 10) l × (from_utf8 l ≡ ok s)

  split_lines-line :
      (l rest : Bytes) → All (λ b. b ≢ 10) l → split_lines (l ++ 10 ∷ rest) ≡ l ∷ split_lines rest
  unfolding split_lines
  split_lines-line [] rest h = refl
  split_lines-line (b ∷ l) rest (p, h) = elim (Bool-cases (b == 10)) [
    | inl e ↦ absurd (p ((==_iff b 10).0 e))
    | inr e ↦ rw (e, split_lines-line l rest h) refl
  ]

  decode-split :
      (lines : List (Bytes × Str))
      → All IsLine lines
      → decode_lines (split_lines (sent lines)) ≡ map (λ x. x.1) lines
  unfolding decode_lines split_lines
  decode-split [] h = refl
  decode-split ((l, s) ∷ lines) ((plain, text), h) =
      rw (split_lines-line l (sent lines) plain, decode_lines, text)
        (ap (λ ls. s ∷ ls) (decode-split lines h))

  -- The lines that a client sends, none of which has a line feed inside and all of which are UTF-8,
  -- arrive as they were sent, up to 64 KiB on one connection.
  pub conn_lines-sent :
      (lines : List (Bytes × Str))
      → All IsLine lines
      → length (sent lines) ≤ max_conn_bytes
      → conn_lines (sent lines) ≡ map (λ x. x.1) lines
  unfolding conn_lines
  conn_lines-sent lines h fits =
      rw (take-all max_conn_bytes (sent lines) fits) (decode-split lines h)
