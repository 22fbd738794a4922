-- ===== src/Cli/Grind.antt =====
-- crates/cli/src/grind.rs: the check of the prefix, the workers and the reporter as a step relation,
-- and what `grind` returns. A worker reads the flag before each batch of 4096 keys. One that has
-- found a key first sets the flag and then sends the secret, so the reporter can run in between.
-- Which keys `generate` gives is left open.
pub mod Found
pub mod Ends
use dotminecraft.Prelude.{
  ℕ, ◌+◌, ◌-◌, ◌%◌, ◌^◌, ◌≤◌, ◌<◌, ◌≡◌, ◌>>=◌, ◌>>◌, ltb, Bool, true, false, not, Option, none,
  some, List, [], ◌∷◌, ◌++◌, all, is_empty, if◌then◌else◌, Result, ok, err,
}
use dotminecraft.Core.Text.{Str, Bytes, text, len}
use dotminecraft.Core.Consts.{max_keyid_len}
use mathlib.Core.Option
use dotminecraft.Core.Crypto.{Crypto}
use dotminecraft.Core.Identity.{Identity, from_secret_bytes}
use dotminecraft.Core.Name.{is_base32_lower, keyid_from_pubkey}

unfoldable pub validate : Str → ℕ → Result Str (Unit {0})
validate prefix keyid_len =
    if is_empty prefix
    then err (text "--vanity-prefix must not be empty")
    else if not (all is_base32_lower prefix)
    then err (text "--vanity-prefix must use only the base32 charset")
    else if ltb keyid_len (len prefix)
    then err (text "--vanity-prefix is longer than keyid_len")
    else if ltb max_keyid_len (len prefix)
    then err (text "--vanity-prefix too long")
    else ok tt

abbrev pub batch : ℕ
batch = 4096

pub record Grind : Type 0 where
  -- the `AtomicBool`
  pub abort : Bool
  -- the `AtomicU64`
  pub attempts : ℕ
  -- workers at the head of their loop, and workers in a batch
  pub idle : ℕ
  pub busy : ℕ
  -- secrets whose workers have set the flag and have not sent them yet
  pub sending : List Bytes
  pub channel : List Bytes
  -- what the reporter's loop ended with
  pub outcome : Option (Option Bytes)
  -- Ctrl-C was pressed
  pub interrupted : Bool

unfoldable pub begin : ℕ → Grind
begin threads = record {
  abort = false;
  attempts = 0;
  idle = threads;
  busy = 0;
  sending = [];
  channel = [];
  outcome = none;
  interrupted = false;
}

-- `attempts.fetch_add(local)`
abbrev pub add_attempts : ℕ → ℕ → ℕ
add_attempts local n = (n + local) % 2 ^ 64

-- `keyid_from_pubkey(&id.public_bytes(), plen) == prefix`
unfoldable pub Matches : Crypto → Str → Bytes → Type 0
Matches c prefix secret = keyid_from_pubkey c (c.public_key secret) (len prefix) ≡ prefix

-- A worker whose key matches counts and sets the flag.
unfoldable pub find : ℕ → Bytes → Grind → Grind
find local secret g = record g {
  abort = true;
  attempts = add_attempts local g.attempts;
  busy = g.busy - 1;
  sending = secret ∷ g.sending;
}

pub data GrindStep (c : Crypto) (prefix : Str) (g : Grind) : Grind → Type 0 where
  -- a worker reads the flag at the head of its loop
  starts :
      0 < g.idle
      → g.abort ≡ false
      → GrindStep c prefix g (record g { idle = g.idle - 1; busy = g.busy + 1 })
  stops : 0 < g.idle → g.abort ≡ true → GrindStep c prefix g (record g { idle = g.idle - 1 })
  -- a batch ends without a key that matches
  misses :
      0 < g.busy
      → GrindStep c prefix g (record g {
        attempts = add_attempts batch g.attempts;
        idle = g.idle + 1;
        busy = g.busy - 1;
      })
  finds :
      (local : ℕ) (secret : Bytes)
      → 0 < g.busy
      → local ≤ batch
      → Matches c prefix secret
      → GrindStep c prefix g (find local secret g)
  -- `tx.send`
  sends :
      (secret : Bytes) (xs ys : List Bytes)
      → g.sending ≡ xs ++ secret ∷ ys
      → GrindStep c prefix g (record g { sending = xs ++ ys; channel = g.channel ++ secret ∷ [] })
  interrupts : GrindStep c prefix g (record g { abort = true; interrupted = true })
  -- the reporter: a secret arrives; a second passes; all senders are gone
  receives :
      (secret : Bytes) (rest : List Bytes)
      → g.outcome ≡ none
      → g.channel ≡ secret ∷ rest
      → GrindStep c prefix g (record g { channel = rest; outcome = some (some secret) })
  times_out :
      g.outcome ≡ none
      → g.channel ≡ []
      → g.abort ≡ true
      → GrindStep c prefix g (record g { outcome = some none })
  disconnects :
      g.outcome ≡ none
      → g.channel ≡ []
      → g.sending ≡ []
      → g.idle ≡ 0
      → g.busy ≡ 0
      → GrindStep c prefix g (record g { outcome = some none })

pub data GrindReach (c : Crypto) (prefix : Str) (threads : ℕ) : Grind → Type 0 where
  begins : GrindReach c prefix threads (begin threads)
  goes :
      {g h : Grind}
      → GrindReach c prefix threads g
      → GrindStep c prefix g h
      → GrindReach c prefix threads h

-- `grind`, from what the reporter's loop ended with.
unfoldable pub grind_result : Str → ℕ → Option Bytes → Result Str (Option Identity)
unfolding validate
grind_result prefix keyid_len found = do
  validate prefix keyid_len
  ok (Option.map from_secret_bytes found)

abbrev or_aborted : Result Str (Option Identity) → Result Str Identity
or_aborted (ok (some id)) = ok id
or_aborted (ok none) = err (text "vanity grinding aborted")
or_aborted (err e) = err e

-- The identity of `cmd_init`: what was ground for the prefix, if one was asked for, or else what
-- `generate` gave.
unfoldable pub obtain : Option Str → ℕ → Identity → Option Bytes → Result Str Identity
unfolding grind_result
obtain none keyid_len generated found = ok generated
obtain (some prefix) keyid_len generated found = or_aborted (grind_result prefix keyid_len found)
