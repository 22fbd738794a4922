-- ===== src/Tests/Grinds.antt =====
-- Tests of crates/cli/src/grind.rs.
use dotminecraft.Prelude.{
  ◌+◌, ◌*◌, ◌≤◌, ◌⊎◌, ◌≡◌, refl, true, false, none, some, [], ◌∷◌, ok, err, arith,
}
use dotminecraft.Core.Text.{Str, text}
use dotminecraft.Core.Name.{is_base32_lower}
use dotminecraft.Cli.Grind.{
  Grind, validate, begin, find, Matches, GrindReach, starts, stops, finds, sends, receives, begins,
  goes,
}
use dotminecraft.Cli.Grind.Found.{found-lost}
use dotminecraft.Cli.Grind.Ends.{Ended, Moves, works, here, grind-ends}
use dotminecraft.Tests.Toy.{toy}
use dotminecraft.Tests.Records.{recording, owner}

unfoldable pub grinding : Unit {0}
unfolding recording validate begin find Matches is_base32_lower
grinding = tt

validate_tests :
    (validate (text "bob") 16 ≡ ok tt)
    × (validate (text "b0b") 16 ≡ err (text "--vanity-prefix must use only the base32 charset"))
    × (validate (text "abcde") 4 ≡ err (text "--vanity-prefix is longer than keyid_len"))
    × (validate [] 4 ≡ err (text "--vanity-prefix must not be empty"))
unfolding grinding
validate_tests = (refl, refl, refl, refl)

abbrev pub prefix : Str
prefix = text "bbb"

owner-Matches : Matches toy prefix owner.signing
unfolding grinding
owner-Matches = refl

-- One of four workers has found the owner's key, and the reporter got it.
abbrev pub done : Grind
done = record {
  abort = true;
  attempts = 1;
  idle = 3;
  busy = 0;
  sending = [];
  channel = [];
  outcome = some (some owner.signing);
  interrupted = false;
}

pub done-GrindReach : GrindReach toy prefix 4 done
unfolding grinding
done-GrindReach =
    goes
      (goes
        (goes (goes begins (starts (omega arith) refl))
          (finds 1 owner.signing (omega arith) (omega arith) owner-Matches))
        (sends owner.signing [] [] refl))
      (receives owner.signing [] refl refl)

found-lost_example :
    (g : Grind) × GrindReach toy prefix 4 g
    × (g.sending ≡ owner.signing ∷ [])
    × (g.outcome ≡ some none)
    × (g.interrupted ≡ false)
found-lost_example = found-lost toy prefix 4 owner.signing (omega arith) owner-Matches

-- From there one worker has read the flag.
grind-ends_example :
    (1 ≤ 4 * 4 + 1)
    × (Ended toy prefix (record done { idle = 2 }) ⊎ Moves toy prefix (record done { idle = 2 }))
grind-ends_example =
    grind-ends toy prefix 4 1 done (record done { idle = 2 }) done-GrindReach refl
      (works here (stops (omega arith) refl) tt)
