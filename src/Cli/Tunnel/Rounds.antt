-- ===== src/Cli/Tunnel/Rounds.antt =====
-- The republishing task of `publish` in crates/cli/src/tunnel.rs, over its rounds.
use dotminecraft.Prelude.{
  ℕ, ◌+◌, ◌*◌, ◌≤◌, ◌<◌, ◌≡◌, ◌≢◌, ◌⊎◌, inl, inr, none, some, List, [], ◌∷◌, length, All, ok, err,
  arith, Option-cases,
}
use dotminecraft.Core.Text.{Str, Bytes}
use dotminecraft.Core.Crypto.{Crypto, IsSound}
use dotminecraft.Core.Identity.{Identity}
use dotminecraft.Core.Record.{sign, verify}
use dotminecraft.Core.Record.Verify.{verify-ok_iff}
use dotminecraft.Cli.Tunnel.{Round, round_delay, round_value, round_end, build_record, max_skew}

module _ (c : Crypto) (id : Identity) (vanity peer_id : Str) where
  -- The round puts a record, and the put is confirmed.
  abbrev pub Succeeds : ℕ → Round → Type 0
  Succeeds start r =
      (value : Bytes) × (round_value c id vanity peer_id start r ≡ some value)
      × (r.put_result ≡ ok tt)

  abbrev pub Fails : ℕ → Round → Type 0
  Fails start r =
      (round_value c id vanity peer_id start r ≡ none) ⊎ ((e : Str) × (r.put_result ≡ err e))

  -- All these rounds fail, one after the other.
  abbrev pub AllFail : ℕ → List Round → Type 0
  AllFail start [] = Unit
  AllFail start (r ∷ rounds) =
      Fails start r × AllFail (round_end c id vanity peer_id start r) rounds

  -- The calls of each round take so many seconds at most.
  abbrev pub Take : ℕ → List Round → Type 0
  Take d rounds = All (λ r. r.gathering + r.storing ≤ d) rounds

  -- When the round after these begins.
  abbrev pub next_start : ℕ → List Round → ℕ
  next_start start [] = start
  next_start start (r ∷ rounds) = next_start (round_end c id vanity peer_id start r) rounds

  Fails-retry :
      (start : ℕ) (r : Round)
      → Fails start r
      → round_end c id vanity peer_id start r ≡ start + (r.gathering + r.storing) + 5
  unfolding round_end round_delay
  Fails-retry start r (inl e) = rw e (omega arith)
  Fails-retry start r (inr (x, e)) = elim (Option-cases (round_value c id vanity peer_id start r)) [
    | inl p ↦ rw p (omega arith)
    | inr (v, p) ↦ rw (p, e) (omega arith)
  ]

  Succeeds-refresh :
      (start : ℕ) (r : Round)
      → Succeeds start r
      → round_end c id vanity peer_id start r ≡ start + (r.gathering + r.storing) + 300
  unfolding round_end round_delay
  Succeeds-refresh start r (value, p, e) = rw (p, e) (omega arith)

  failing-time :
      (d start : ℕ) (rounds : List Round)
      → AllFail start rounds
      → Take d rounds
      → (start + 5 * length rounds ≤ next_start start rounds)
        × (next_start start rounds ≤ start + 5 * length rounds + length rounds * d)
  failing-time d start [] f t = (omega arith, omega arith)
  failing-time d start (r ∷ rounds) (f, fs) (t, ts) =
      let e = Fails-retry start r f in
      let (lo, hi) = failing-time d (round_end c id vanity peer_id start r) rounds fs ts in
      (omega arith, omega arith)

  -- A record that a round put at `ts` verifies for no name more than 300 seconds later, while the
  -- next round that does not fail begins 300 seconds after `ts` at the earliest, and five seconds
  -- later for each round that fails before it; and it begins no later than that plus the time that
  -- the calls of all these rounds take.
  pub refresh-gap :
      (sound : IsSound c) (d start : ℕ) (r : Round) (failed : List Round)
      → Succeeds start r
      → AllFail (round_end c id vanity peer_id start r) failed
      → Take d (r ∷ failed)
      → (start + r.gathering + 300 + 5 * length failed ≤ next_start start (r ∷ failed))
        × (next_start start (r ∷ failed)
            ≤ start + r.gathering + 300 + 5 * length failed + (1 + length failed) * d)
        × ((addrs : List Str) (keyid : Str) (now : ℕ)
            → start + r.gathering + 300 < now
            → verify c
                (build_record c id vanity peer_id addrs (start + r.gathering))
                keyid
                now
                max_skew
              ≢ ok tt)
  unfolding build_record sign
  refresh-gap sound d start r failed good fs (t, ts) =
      let e = Succeeds-refresh start r good in
      let (lo, hi) = failing-time d (round_end c id vanity peer_id start r) failed fs ts in
      (
        omega arith,
        omega arith,
        λ addrs keyid now late v.
            let fresh =
              ((verify-ok_iff c sound (build_record c id vanity peer_id addrs (start + r.gathering))
                  keyid now max_skew).0
                v).2 in
            absurd (omega (arith, fresh.1)),
      )
