-- ===== src/Cli/Tunnel/Resolve.antt =====
-- `resolve` and `establish` of crates/cli/src/tunnel.rs.
use dotminecraft.Prelude.{
  ℕ, ◌+◌, ◌-◌, ◌*◌, ◌≤◌, ◌<◌, ◌≡◌, ◌↔◌, inl, inr, refl, ◌∙◌, false, Option, none, some, List, [],
  ◌∷◌, ◌++◌, length, leb, All, Elem, filter_map, seq_eq_iff, Bool-cases, Option-cases, Result, ok,
  err, Result-cases, arith,
}
use dotminecraft.Core.Text.{Str, Bytes, text}
use dotminecraft.Core.Body.{Record}
use dotminecraft.Core.Crypto.{Crypto}
use dotminecraft.Core.Name.{Name}
use dotminecraft.Core.Record.{select_verified}
use dotminecraft.Core.Record.Select.{Trusted, select_verified_sound}
use dotminecraft.Net.Swarm.{Swarm, PeerId, Multiaddr}
use dotminecraft.Cli.Tunnel.{
  Attempt, max_skew, resolve_timeout, resolve_until, resolve, dialled, bind_to, bind_peer,
  establish_from, establish,
}

-- The instants of the attempts: the first at `from` or later, each other at least two seconds after
-- the one before it.
abbrev pub Spaced : ℕ → List Attempt → Type 0
Spaced from [] = Unit
Spaced from (a ∷ attempts) = (from ≤ a.instant) × Spaced (a.instant + 2000) attempts

not_late : (instant deadline : ℕ) → leb deadline instant ≡ false → instant < deadline
not_late instant deadline h = ground arith

module _ (c : Crypto) (name : Name) where
  -- What came back in the attempt has a record that parses and verifies for the name.
  abbrev pub Gave : Attempt → Record → Type 0
  Gave a r =
      (found : List Bytes) × (a.candidates ≡ ok found)
      × ((b : Bytes) × Elem b found × Trusted c name.keyid a.now max_skew b r)

  -- The attempt was made before the deadline, and nothing that came back verifies.
  abbrev pub Fruitless : ℕ → Attempt → Type 0
  Fruitless deadline a =
      (found : List Bytes) × (a.candidates ≡ ok found)
      × (select_verified c found name.keyid a.now max_skew ≡ none)
      × (a.instant < deadline)

  resolve_until_sound :
      (deadline : ℕ) (attempts : List Attempt) (r : Record)
      → resolve_until c name deadline attempts ≡ some (ok r)
      → (a : Attempt) × Elem a attempts × Gave a r
  unfolding resolve_until
  resolve_until_sound deadline [] r h = cc
  resolve_until_sound deadline (a ∷ attempts) r h = elim (Result-cases a.candidates) [
    | inr (e, p) ↦ cc (rw p at h)
    | inl (found, p) ↦ elim (Option-cases (select_verified c found name.keyid a.now max_skew)) [
      | inr (r', q) ↦
          let same : r' ≡ r = ground arith in
          let (b, m, t) =
            (select_verified_sound c name.keyid a.now max_skew found r (rw same at q)).0 in
          (a, inl refl, (found, p, (b, m, t)))
      | inl q ↦ elim (Bool-cases (leb deadline a.instant)) [
        | inl late ↦ cc (rw (p, q, late) at h)
        | inr early ↦
            let (a', m, g) = resolve_until_sound deadline attempts r (rw (p, q, early) at h) in
            (a', inr m, g)
      ]
    ]
  ]

  -- A record that `resolve` returns was among what came back in one of its attempts, where it
  -- parsed and passed `verify` for the keyid of the name, at the time of the attempt.
  pub resolve_sound :
      (start : ℕ) (attempts : List Attempt) (r : Record)
      → resolve c name start attempts ≡ some (ok r)
      → (a : Attempt) × Elem a attempts × Gave a r
  unfolding resolve
  resolve_sound start attempts r h = resolve_until_sound (start + resolve_timeout) attempts r h

  resolve_until-ends :
      (n deadline from : ℕ) (attempts : List Attempt)
      → Spaced from attempts
      → n < length attempts
      → deadline ≤ from + n * 2000
      → (res : Result Str Record) × (resolve_until c name deadline attempts ≡ some res)
  unfolding resolve_until
  resolve_until-ends n deadline from [] spaced many late = absurd (omega arith)
  resolve_until-ends n deadline from (a ∷ attempts) (at_least, spaced) many late =
      elim (Result-cases a.candidates) [
        | inr (e, p) ↦ (err e, rw p refl)
        | inl (found, p) ↦ elim (Option-cases (select_verified c found name.keyid a.now max_skew)) [
          | inr (r, q) ↦ (ok r, rw (p, q) refl)
          | inl q ↦ elim (Bool-cases (leb deadline a.instant)) [
            | inl over ↦ (err (text "could not resolve"), rw (p, q, over) refl)
            | inr early ↦
                let before : a.instant < deadline = not_late a.instant deadline early in
                rw (p, q, early)
                  (resolve_until-ends (n - 1) deadline (a.instant + 2000) attempts spaced
                    (omega arith) (omega arith))
          ]
        ]
      ]

  -- `resolve` returns: where each attempt comes at least two seconds after the one before it, it
  -- has a result, a record or an error, after at most 24 attempts.
  pub resolve-ends :
      (start : ℕ) (attempts : List Attempt)
      → Spaced start attempts
      → 24 ≤ length attempts
      → (res : Result Str Record) × (resolve c name start attempts ≡ some res)
  unfolding resolve
  resolve-ends start attempts spaced many =
      resolve_until-ends 23 (start + resolve_timeout) start attempts spaced (omega arith)
        (omega arith)

  resolve_until-skips :
      (deadline : ℕ) (before attempts : List Attempt)
      → All (Fruitless deadline) before
      → resolve_until c name deadline (before ++ attempts) ≡ resolve_until c name deadline attempts
  unfolding resolve_until
  resolve_until-skips deadline [] attempts h = refl
  resolve_until-skips deadline (a ∷ before) attempts ((found, p, q, early), h) =
      rw (p, q) (ground (arith, resolve_until-skips deadline before attempts h))

  -- Attempts that bring nothing, or only records that do not verify, do not make `resolve` fail
  -- before its deadline: if after such attempts one brings candidates of which `select_verified`
  -- selects a record, `resolve` returns that record, also at or after the deadline.
  pub resolve-perseveres :
      (start : ℕ) (before after : List Attempt) (a : Attempt) (found : List Bytes) (r : Record)
      → All (Fruitless (start + resolve_timeout)) before
      → a.candidates ≡ ok found
      → select_verified c found name.keyid a.now max_skew ≡ some r
      → resolve c name start (before ++ a ∷ after) ≡ some (ok r)
  unfolding resolve resolve_until
  resolve-perseveres start before after a found r h p q =
      resolve_until-skips (start + resolve_timeout) before (a ∷ after) h ∙ rw (p, q) refl

module _ {S : Type 0} (sw : Swarm S) where
  -- The peer is the one of the record's key, the record names it, and these are the addresses of
  -- the record that parse.
  abbrev pub Bound : Record → PeerId → List Multiaddr → Type 0
  Bound r peer dials =
      (sw.peer_id_from_ed25519 r.body.pubkey ≡ ok peer)
      × (sw.peer_to_string peer ≡ r.body.peer_id)
      × (dials ≡ filter_map (dialled sw) r.body.addrs)

  bind_to_iff :
      (r : Record) (res : Result Str PeerId) (peer : PeerId) (dials : List Multiaddr)
      → (bind_to sw r res ≡ (ok peer, dials)) ↔ (
          (res ≡ ok peer)
          × (sw.peer_to_string peer ≡ r.body.peer_id)
          × (dials ≡ filter_map (dialled sw) r.body.addrs))
  unfolding bind_to
  bind_to_iff r (err e) peer dials = ground arith
  bind_to_iff r (ok x) peer dials = ground (arith, seq_eq_iff (sw.peer_to_string x) r.body.peer_id)

  pub bind_peer_iff :
      (r : Record) (peer : PeerId) (dials : List Multiaddr)
      → (bind_peer sw r ≡ (ok peer, dials)) ↔ Bound r peer dials
  unfolding bind_peer
  bind_peer_iff r peer dials = bind_to_iff r (sw.peer_id_from_ed25519 r.body.pubkey) peer dials

  establish_from_sound :
      (res : Option (Result Str Record)) (peer : PeerId) (dials : List Multiaddr)
      → establish_from sw res ≡ (some (ok peer), dials)
      → (r : Record) × (res ≡ some (ok r)) × Bound r peer dials
  unfolding establish_from
  establish_from_sound none peer dials h = cc
  establish_from_sound (some (err e)) peer dials h = cc
  establish_from_sound (some (ok r)) peer dials h =
      (r, refl, (bind_peer_iff r peer dials).0 (ground arith))

  -- When `establish` gives a peer, the record that was resolved parsed and verified for the keyid
  -- of the name in one of the attempts, the peer is the one of that record's key, the record names
  -- that peer, and what is dialled are the addresses of that record that parse.
  pub establish_sound :
      (c : Crypto) (name : Name) (start : ℕ) (attempts : List Attempt) (peer : PeerId)
      (dials : List Multiaddr)
      → establish sw c name start attempts ≡ (some (ok peer), dials)
      → (r : Record) × ((a : Attempt) × Elem a attempts × Gave c name a r) × Bound r peer dials
  unfolding establish
  establish_sound c name start attempts peer dials h =
      let (r, e, bound) = establish_from_sound (resolve c name start attempts) peer dials h in
      (r, resolve_sound c name start attempts r e, bound)
