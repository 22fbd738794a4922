-- ===== src/Cli/Tunnel/Secure.antt =====
-- Whom `establish` of crates/cli/src/tunnel.rs can be led to, whatever the DHT brings.
use dotminecraft.Prelude.{
  ℕ, ◌+◌, ◌≤◌, ◌≡◌, refl, sym, ap, ◌∙◌, true, some, List, Elem, filter_map, ok, arith,
}
use dotminecraft.Core.Text.{Str, Bytes}
use dotminecraft.Core.Body.{Record, RecordBody}
use dotminecraft.Core.Crypto.{Crypto, IsSound}
use dotminecraft.Core.Identity.{Identity, public_bytes}
use dotminecraft.Core.Name.{Name}
use dotminecraft.Core.Record.{sign, from_bytes}
use dotminecraft.Core.Record.Verify.{Binds, verify-ok_iff}
use dotminecraft.Net.Swarm.{Swarm, PeerId, Multiaddr}
use dotminecraft.Net.Message.{DoctorInfo}
use dotminecraft.Cli.Tunnel.{Attempt, max_skew, advertised_addrs, build_record, dialled, establish}
use dotminecraft.Cli.Tunnel.Resolve.{establish_sound}

-- A record came back in one of the attempts.
abbrev pub Arrived : Crypto → List Attempt → Record → Type 0
Arrived c attempts r =
    (a : Attempt) × Elem a attempts
    × ((found : List Bytes) × (a.candidates ≡ ok found)
        × ((b : Bytes) × Elem b found × (from_bytes c b ≡ ok r)))

module _ (c : Crypto) (id : Identity) (vanity : Str) (peer_id : Str) where
  -- What the identity signs in a round of its republishing task, by what `doctor` told and the time.
  abbrev pub signed_body : DoctorInfo × ℕ → RecordBody
  signed_body (info, ts) = (build_record c id vanity peer_id (advertised_addrs info) ts).body

  signed_body-fields :
      (info : DoctorInfo) (ts : ℕ)
      → ((signed_body (info, ts)).addrs ≡ advertised_addrs info)
        × ((signed_body (info, ts)).ts ≡ ts)
  unfolding build_record sign
  signed_body-fields info ts = (refl, refl)

  -- The assumptions on the cryptography, about what came back alone: no other key than the identity's
  -- has a full keyid that begins with the keyid, and its key accepts no signature on a body that it
  -- did not sign in one of the rounds.
  pub record IsUnforged (keyid : Str) (rounds : List (DoctorInfo × ℕ)) (attempts : List Attempt)
      : Type 0 where
    pub no_second_key :
        (r : Record) → Arrived c attempts r → Binds c keyid r → r.body.pubkey ≡ public_bytes c id
    pub no_forgery :
        (r : Record)
        → Arrived c attempts r
        → r.body.pubkey ≡ public_bytes c id
        → c.accepts r.body.pubkey (c.encode_body r.body) r.sig ≡ true
        → (round : DoctorInfo × ℕ) × Elem round rounds × (r.body ≡ signed_body round)

  -- Connecting cannot be misdirected: whatever comes back from the DHT, if nothing of it is forged,
  -- then a peer that `establish` gives is the one of the identity's key, and what it dials are the
  -- addresses that parse of those that the identity advertised in one round of its republishing
  -- task, at most 300 seconds before or after the time of an attempt.
  pub establish-owned :
      (sound : IsSound c) {S : Type 0} (sw : Swarm S) (name : Name) (rounds : List (DoctorInfo × ℕ))
      (start : ℕ) (attempts : List Attempt) (peer : PeerId) (dials : List Multiaddr)
      → IsUnforged name.keyid rounds attempts
      → establish sw c name start attempts ≡ (some (ok peer), dials)
      → (sw.peer_id_from_ed25519 (public_bytes c id) ≡ ok peer)
        × ((info : DoctorInfo) × (ts : ℕ) × Elem (info, ts) rounds
            × (dials ≡ filter_map (dialled sw) (advertised_addrs info))
            × ((a : Attempt) × Elem a attempts × (ts ≤ a.now + 300) × (a.now ≤ ts + 300)))
  establish-owned sound sw name rounds start attempts peer dials u h =
      let (r, (a, m, (found, e, (b, k, (read, verified)))), (of, text, dialling)) =
        establish_sound sw c name start attempts peer dials h in
      let arrived : Arrived c attempts r = (a, m, (found, e, (b, k, read))) in
      let (signed, binds, fresh) = (verify-ok_iff c sound r name.keyid a.now max_skew).0 verified in
      let own = u.no_second_key r arrived binds in
      let ((info, ts), among, body) = u.no_forgery r arrived own signed.2 in
      let (addrs, time) = signed_body-fields info ts in
      let at = ap (λ x. x.ts) body ∙ time in
      (
        rw (sym own) of,
        (
          info,
          ts,
          among,
          dialling ∙ ap (λ x. filter_map (dialled sw) x) (ap (λ x. x.addrs) body ∙ addrs),
          (a, m, omega (arith, fresh.0, at), omega (arith, fresh.1, at)),
        ),
      )
