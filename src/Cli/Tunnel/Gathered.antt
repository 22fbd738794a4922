-- ===== src/Cli/Tunnel/Gathered.antt =====
-- `resolve` of crates/cli/src/tunnel.rs on the network task of crates/net/src/node.rs.
use dotminecraft.Prelude.{
  ℕ, ◌+◌, ◌≤◌, ◌≡◌, inl, inr, refl, sym, ◌∙◌, true, some, List, [], ◌∷◌, ◌++◌, length, ==_refl, All,
  Elem, Elem-append_left, Elem-append_right, ok, lookup, nat_eq, arith,
}
use dotminecraft.Core.Text.{Str, Bytes}
use dotminecraft.Core.Consts.{max_record_bytes}
use dotminecraft.Core.Body.{Record}
use dotminecraft.Core.Crypto.{Crypto, IsSound}
use dotminecraft.Core.Identity.{Identity, public_bytes}
use dotminecraft.Core.Name.{Name, keyid_from_pubkey}
use dotminecraft.Core.Record.{sign}
use dotminecraft.Core.Record.Verify.{IsFresh}
use dotminecraft.Core.Record.Storage.{select_verified-sign}
use dotminecraft.Net.Swarm.{Swarm, QueryId}
use dotminecraft.Net.Message.{Waiter, DoctorInfo, KadResult, found_record, records}
use dotminecraft.Net.Handle.{await_records}
use dotminecraft.Net.Node.{Node, handle_kad_result}
use dotminecraft.Net.Node.Queries.{Progress, Runs, ends_get, gathered, after_results, get-answered}
use dotminecraft.Cli.Tunnel.{
  Attempt, max_skew, resolve_timeout, advertised_addrs, build_record, round_put, resolve,
}
use dotminecraft.Cli.Tunnel.Resolve.{Fruitless, resolve-perseveres}
use dotminecraft.Cli.Tunnel.Publish.{IsPublishable, round_put-value}

gathered-Elem :
    (id : QueryId) (value : Bytes) (ps : List Progress)
    → length value ≤ max_record_bytes
    → Elem (id, found_record value) ps
    → Elem value (gathered id ps)
gathered-Elem id value [] fits m = absurd m
gathered-Elem id value (p ∷ ps) fits (inl e) =
    rw (sym e) (Elem-append_left value _ (gathered id ps) (ground (arith, ==_refl id)))
gathered-Elem id value (p ∷ ps) fits (inr m) =
    Elem-append_right value _ (gathered id ps) (gathered-Elem id value ps fits m)

await_records-answered :
    (resp : Waiter) (found : List Bytes) → await_records resp (records resp found ∷ []) ≡ ok found
unfolding await_records
await_records-answered resp found = rw (==_refl resp) refl

module _ (c : Crypto) (sound : IsSound c) {S : Type 0} (sw : Swarm S) (id : Identity) (n : ℕ)
    (vanity peer_id : Str) (info : DoctorInfo) (ts : ℕ) (value : Bytes) where
  -- One genuine answer is enough: if the get of an attempt to resolve one of the identity's names is
  -- running in the network task, and what a round of the republishing task put comes for it before it
  -- ends, among whatever else comes for this and other queries, and is fresh then, and fits its types
  -- and the size limit, and the attempts before it were made before the deadline and brought nothing
  -- that verifies, then `resolve` returns a record, and none older than that one.
  pub resolve-gathered :
      (node : Node S) (query : QueryId) (resp : Waiter) (ps : List Progress) (last : KadResult)
      (name : Name) (start : ℕ) (before after : List Attempt) (a : Attempt)
      → round_put c id vanity peer_id (ok info) ts ≡ some value
      → IsPublishable c (build_record c id vanity peer_id (advertised_addrs info) ts)
      → lookup query node.pending_get ≡ some (resp, [])
      → Runs query ps
      → ends_get last ≡ true
      → Elem (query, found_record value) ps
      → a.candidates
        ≡ await_records resp (handle_kad_result c sw (after_results c sw node ps) query last).1
      → name.keyid ≡ keyid_from_pubkey c (public_bytes c id) n
      → IsFresh a.now max_skew (build_record c id vanity peer_id (advertised_addrs info) ts)
      → All (Fruitless c name (start + resolve_timeout)) before
      → (r : Record) × (resolve c name start (before ++ a ∷ after) ≡ some (ok r)) × (ts ≤ r.body.ts)
  unfolding build_record sign
  resolve-gathered node query resp ps last name start before after a h (range, fits) running runs
        ends m came mine fresh fruitless =
      let rec = build_record c id vanity peer_id (advertised_addrs info) ts in
      let e = round_put-value c id vanity peer_id info ts value h in
      let (answer, gone) = get-answered c sw node query resp ps last running runs ends in
      let found : a.candidates ≡ ok (gathered query ps) =
        came ∙ rw answer (await_records-answered resp (gathered query ps)) in
      let there = gathered-Elem query value ps (rw e at fits) m in
      let (r, selected, newer) =
        select_verified-sign c sound rec.body id n a.now max_skew (gathered query ps) refl refl
          range fits fresh (rw e there) in
      (
        r,
        resolve-perseveres c name start before after a (gathered query ps) r fruitless found
            (rw (sym mine) at selected),
        newer,
      )
