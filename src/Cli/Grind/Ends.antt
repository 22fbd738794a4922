-- ===== src/Cli/Grind/Ends.antt =====
-- The grinding of crates/cli/src/grind.rs ends once its flag is set.
use dotminecraft.Prelude.{
  ℕ, suc, ◌+◌, ◌*◌, ◌≤◌, ◌<◌, ◌≡◌, ◌⊎◌, refl, inl, inr, true, none, some, Option, List, [], ◌∷◌,
  length, length-append, arith, ltb, Bool-cases,
}
use dotminecraft.Core.Text.{Str, Bytes}
use dotminecraft.Core.Crypto.{Crypto}
use dotminecraft.Cli.Grind.{
  Grind, begin, find, GrindStep, GrindReach, starts, stops, misses, finds, sends, interrupts,
  receives, times_out, disconnects, begins, goes,
}

-- Every step but Ctrl-C.
abbrev pub IsWork : {c : Crypto} {prefix : Str} {g h : Grind} → GrindStep c prefix g h → Type 0
IsWork interrupts = ⊥
IsWork _ = Unit

-- A row of steps, of which `n` are not Ctrl-C.
pub data GrindPath (c : Crypto) (prefix : Str) (g : Grind) : ℕ → Grind → Type 0 where
  here : GrindPath c prefix g 0 g
  works :
      {n : ℕ} {h k : Grind}
      → GrindPath c prefix g n h
      → (s : GrindStep c prefix h k) → IsWork s
      → GrindPath c prefix g (suc n) k
  presses :
      {n : ℕ} {h : Grind}
      → GrindPath c prefix g n h
      → GrindPath c prefix g n (record h { abort = true; interrupted = true })

-- The workers, and the secrets under way.
abbrev hands : Grind → ℕ
hands g = g.idle + g.busy + length g.sending + length g.channel

abbrev unsettled : Option (Option Bytes) → ℕ
unsettled none = 1
unsettled (some found) = 0

unsettled-le-one : (out : Option (Option Bytes)) → unsettled out ≤ 1
unsettled-le-one none = omega arith
unsettled-le-one (some found) = omega arith

-- What is left to do once the flag is set.
abbrev measure : Grind → ℕ
measure g = 4 * g.busy + 3 * g.idle + 2 * length g.sending + length g.channel + unsettled g.outcome

module _ (c : Crypto) (prefix : Str) where
  GrindStep-hands : (g h : Grind) → GrindStep c prefix g h → hands h ≤ hands g
  unfolding find
  GrindStep-hands g _ (starts w e) = omega arith
  GrindStep-hands g _ (stops w e) = omega arith
  GrindStep-hands g _ (misses w) = omega arith
  GrindStep-hands g _ (finds local secret w l m) = omega arith
  GrindStep-hands g _ (sends secret xs ys e) = rw e (
      omega (
        arith,
        length-append xs (secret ∷ ys),
        length-append xs ys,
        length-append g.channel (secret ∷ []),
      ))
  GrindStep-hands g _ interrupts = omega arith
  GrindStep-hands g _ (receives secret rest o e) = rw e (omega arith)
  GrindStep-hands g _ (times_out o k a) = omega arith
  GrindStep-hands g _ (disconnects o k s i b) = omega arith

  GrindReach-hands : (threads : ℕ) (g : Grind) → GrindReach c prefix threads g → hands g ≤ threads
  unfolding begin
  GrindReach-hands threads _ begins = omega arith
  GrindReach-hands threads g (goes r s) =
      omega (arith, GrindStep-hands _ g s, GrindReach-hands threads _ r)

  -- With the flag set, each step but Ctrl-C leaves less to do, and the flag set.
  GrindStep-falls :
      (g h : Grind) (s : GrindStep c prefix g h)
      → IsWork s
      → g.abort ≡ true
      → (measure h < measure g) × (h.abort ≡ true)
  unfolding find
  GrindStep-falls g _ (starts w e) k a = cc
  GrindStep-falls g _ (stops w e) k a = (omega arith, a)
  GrindStep-falls g _ (misses w) k a = (omega arith, a)
  GrindStep-falls g _ (finds local secret w l m) k a = (omega arith, refl)
  GrindStep-falls g _ (sends secret xs ys e) k a = (
    rw e (
        omega (
          arith,
          length-append xs (secret ∷ ys),
          length-append xs ys,
          length-append g.channel (secret ∷ []),
        )),
    a,
  )
  GrindStep-falls g _ interrupts k a = absurd k
  GrindStep-falls g _ (receives secret rest o e) k a = (rw (e, o) (omega arith), a)
  GrindStep-falls g _ (times_out o e b) k a = (rw o (omega arith), a)
  GrindStep-falls g _ (disconnects o e s i b) k a = (rw o (omega arith), a)

  GrindPath-falls :
      (g h : Grind) (n : ℕ)
      → GrindPath c prefix g n h
      → g.abort ≡ true
      → (n + measure h ≤ measure g) × (h.abort ≡ true)
  GrindPath-falls g _ _ here a = (omega arith, a)
  GrindPath-falls g h _ (works p s k) a =
      let (le, b) = GrindPath-falls g _ _ p a in
      let (lt, d) = GrindStep-falls _ h s k b in (omega arith, d)
  GrindPath-falls g _ n (presses p) a = ((GrindPath-falls g _ n p a).0, refl)

  -- A step that can be made.
  abbrev pub Moves : Grind → Type 0
  Moves g = (h : Grind) × (s : GrindStep c prefix g h) × IsWork s

  -- The reporter has left its loop and every worker has returned, so that `grind` returns.
  abbrev pub Ended : Grind → Type 0
  Ended g =
      ((found : Option Bytes) × (g.outcome ≡ some found))
      × (g.idle ≡ 0)
      × (g.busy ≡ 0)
      × (g.sending ≡ [])

  reports :
      (g : Grind) (l : List Bytes) → g.channel ≡ l → g.abort ≡ true → g.outcome ≡ none → Moves g
  reports g [] e a o = (_, times_out o e a, tt)
  reports g (secret ∷ rest) e a o = (_, receives secret rest o e, tt)

  hands_over :
      (g : Grind) (l : List Bytes) (found : Option Bytes)
      → g.sending ≡ l
      → g.outcome ≡ some found
      → g.idle ≡ 0
      → g.busy ≡ 0
      → Ended g ⊎ Moves g
  hands_over g [] found e o i b = inl ((found, o), i, b, e)
  hands_over g (secret ∷ ys) found e o i b = inr (_, sends secret [] ys e, tt)

  moves :
      (g : Grind) (out : Option (Option Bytes))
      → g.outcome ≡ out
      → g.abort ≡ true
      → Ended g ⊎ Moves g
  moves g none o a = inr (reports g g.channel refl a o)
  moves g (some found) o a = elim (Bool-cases (ltb 0 g.busy)) [
    | inl busy ↦ inr (_, misses (ground arith), tt)
    | inr quiet ↦ elim (Bool-cases (ltb 0 g.idle)) [
      | inl idle ↦ inr (_, stops (ground arith) a, tt)
      | inr gone ↦ hands_over g g.sending found refl o (ground arith) (ground arith)
    ]
  ]

  -- Grinding ends once its flag is set, by Ctrl-C or by a key that was found: from each state that is
  -- reachable with so many workers and has the flag set, a row of steps has at most four for each
  -- worker and one more, not counting further presses of Ctrl-C; and where it stops, either the
  -- reporter has left its loop and all workers have returned, or another step can be made.
  pub grind-ends :
      (threads n : ℕ) (g h : Grind)
      → GrindReach c prefix threads g
      → g.abort ≡ true
      → GrindPath c prefix g n h
      → (n ≤ 4 * threads + 1) × (Ended h ⊎ Moves h)
  grind-ends threads n g h r a p =
      let (le, b) = GrindPath-falls g h n p a in
      (
        omega (arith, GrindReach-hands threads g r, unsettled-le-one g.outcome),
        moves h h.outcome refl b,
      )
