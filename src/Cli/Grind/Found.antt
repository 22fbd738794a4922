-- ===== src/Cli/Grind/Found.antt =====
-- What the reporter of crates/cli/src/grind.rs ends with.
use dotminecraft.Prelude.{
  ℕ, ◌<◌, ◌≡◌, refl, false, none, some, Option, [], ◌∷◌, All, All-append, All-without, arith,
}
use dotminecraft.Core.Text.{Str, Bytes}
use dotminecraft.Core.Crypto.{Crypto}
use dotminecraft.Cli.Grind.{
  Grind, begin, Matches, find, GrindStep, GrindReach, starts, misses, finds, sends, stops,
  interrupts, receives, times_out, disconnects, begins, goes,
}

-- A secret that was found, if one was, matches.
abbrev OutcomeMatches : Crypto → Str → Option (Option Bytes) → Type 0
OutcomeMatches c prefix none = Unit
OutcomeMatches c prefix (some none) = Unit
OutcomeMatches c prefix (some (some secret)) = Matches c prefix secret

abbrev Inv : Crypto → Str → Grind → Type 0
Inv c prefix g =
    All (Matches c prefix) g.sending
    × All (Matches c prefix) g.channel
    × OutcomeMatches c prefix g.outcome

GrindStep-Inv :
    (c : Crypto) (prefix : Str) (g h : Grind)
    → GrindStep c prefix g h
    → Inv c prefix g
    → Inv c prefix h
unfolding find
GrindStep-Inv c prefix g _ (starts w e) i = i
GrindStep-Inv c prefix g _ (misses w) i = i
GrindStep-Inv c prefix g _ (finds local secret w l m) (s, k, o) = ((m, s), k, o)
GrindStep-Inv c prefix g _ (sends secret xs ys e) (s, k, o) =
    let (rest, m) = All-without (Matches c prefix) xs ys secret (rw e at s) in
    (rest, All-append (Matches c prefix) g.channel (secret ∷ []) k (m, tt), o)
GrindStep-Inv c prefix g _ (stops w e) i = i
GrindStep-Inv c prefix g _ interrupts i = i
GrindStep-Inv c prefix g _ (receives secret rest o' e) (s, k, o) =
    let (m, k') : All (Matches c prefix) (secret ∷ rest) = rw e at k in (s, k', m)
GrindStep-Inv c prefix g _ (times_out a b d) (s, k, o) = (s, k, tt)
GrindStep-Inv c prefix g _ (disconnects a b d e f) (s, k, o) = (s, k, tt)

GrindReach-Inv :
    (c : Crypto) (prefix : Str) (threads : ℕ) (g : Grind)
    → GrindReach c prefix threads g
    → Inv c prefix g
unfolding begin
GrindReach-Inv c prefix threads _ begins = (tt, tt, tt)
GrindReach-Inv c prefix threads _ (goes r s) =
    GrindStep-Inv c prefix _ _ s (GrindReach-Inv c prefix threads _ r)

-- Whatever the interleaving of the workers, the reporter and Ctrl-C, a secret that grinding ends
-- with has a key whose keyid of the length of the prefix is the prefix.
pub outcome-Matches :
    (c : Crypto) (prefix : Str) (threads : ℕ) (g : Grind) (secret : Bytes)
    → GrindReach c prefix threads g
    → g.outcome ≡ some (some secret)
    → Matches c prefix secret
outcome-Matches c prefix threads g secret r e =
    let (s, k, o) = GrindReach-Inv c prefix threads g r in rw e at o

-- A key that was found can be lost: with at least one worker, and for each secret that matches, a
-- state is reachable in which its worker has found it and not sent it, the reporter has ended
-- without a result, and Ctrl-C was never pressed.
pub found-lost :
    (c : Crypto) (prefix : Str) (threads : ℕ) (secret : Bytes)
    → 0 < threads
    → Matches c prefix secret
    → (g : Grind) × GrindReach c prefix threads g
      × (g.sending ≡ secret ∷ [])
      × (g.outcome ≡ some none)
      × (g.interrupted ≡ false)
unfolding begin find
found-lost c prefix threads secret some_worker m = (
  _,
  goes (goes (goes begins (starts some_worker refl)) (finds 1 secret (omega arith) (omega arith) m))
      (times_out refl refl refl),
  refl,
  refl,
  refl,
)
