-- ===== src/Net/Node/Queries.antt =====
-- The DHT queries of crates/net/src/node.rs: what is gathered for a query, and who is answered.
use dotminecraft.Prelude.{
  ◌≡◌, inl, inr, ap, ◌∙◌, Bool, true, false, Option, none, some, List, [], ◌∷◌, ◌++◌, length, leb,
  ◌==◌, ==_iff, append_assoc, append-nil, All, arith, Bool-cases, if◌then◌else◌, lookup,
  lookup-insert, lookup-remove, nat_eq, Map, beq_refl,
}
use dotminecraft.Core.Text.{Bytes}
use dotminecraft.Core.Consts.{max_record_bytes}
use dotminecraft.Core.Crypto.{Crypto}
use dotminecraft.Net.Swarm.{Swarm, QueryId}
use dotminecraft.Net.Message.{
  Waiter, records, KadResult, put_result, found_record, finished, get_failed, other_result,
}
use dotminecraft.Net.Node.{Node, handle_kad_result, push_record}

-- The results of the queries, in the order in which they come.
abbrev pub Progress : Type 0
Progress = QueryId × KadResult

-- The result that ends a get.
abbrev pub ends_get : KadResult → Bool
ends_get finished = true
ends_get (get_failed e) = true
ends_get _ = false

-- What a result brings to the query `id`: a record that is within the size limit.
abbrev brought : QueryId → Progress → List Bytes
brought id (i, found_record value) =
    if i == id then (if leb (length value) max_record_bytes then value ∷ [] else []) else []
brought id (i, _) = []

abbrev pub gathered : QueryId → List Progress → List Bytes
gathered id [] = []
gathered id (p ∷ ps) = brought id p ++ gathered id ps

abbrev pub Runs : QueryId → List Progress → Type 0
Runs id ps = All (λ p. (p.0 ≡ id) → ends_get p.1 ≡ false) ps

push_record-pending :
    (i id : QueryId) (value : Bytes) (m : Map QueryId (Waiter × List Bytes)) (resp : Waiter)
    (acc : List Bytes)
    → lookup id m ≡ some (resp, acc)
    → lookup id (push_record (lookup i m) i value m)
      ≡ some (resp, acc ++ (if i == id then value ∷ [] else []))
push_record-pending i id value m resp acc h = elim (Bool-cases (i == id)) [
  | inl same ↦
      let e : lookup i m ≡ some (resp, acc) = ap (λ k. lookup k m) ((==_iff i id).0 same) ∙ h in
      rw (same, e, push_record) (lookup-insert i id (resp, acc ++ value ∷ []) m ∙ rw same)
  | inr other ↦ rw (other, append-nil) (untouched (lookup i m) other)
]
  where
    untouched :
        (o : Option (Waiter × List Bytes))
        → (i == id) ≡ false
        → lookup id (push_record o i value m) ≡ some (resp, acc)
    untouched none other = h
    untouched (some (r, a)) other = lookup-insert i id (r, a ++ value ∷ []) m ∙ rw other h

module _ (c : Crypto) {S : Type 0} (sw : Swarm S) where
  unfoldable pub after_results : Node S → List Progress → Node S
  after_results n [] = n
  after_results n ((id, res) ∷ ps) = after_results (handle_kad_result c sw n id res).0 ps

  result-pending :
      (n : Node S) (id i : QueryId) (res : KadResult) (resp : Waiter) (acc : List Bytes)
      → lookup id n.pending_get ≡ some (resp, acc)
      → ((i ≡ id) → ends_get res ≡ false)
      → lookup id (handle_kad_result c sw n i res).0.pending_get
        ≡ some (resp, acc ++ brought id (i, res))
  unfolding handle_kad_result
  result-pending n id i (put_result r) resp acc h k = rw append-nil h
  result-pending n id i other_result resp acc h k = rw append-nil h
  result-pending n id i finished resp acc h k =
      ground (arith, append-nil acc, lookup-remove i id n.pending_get)
  result-pending n id i (get_failed e) resp acc h k =
      ground (arith, append-nil acc, lookup-remove i id n.pending_get)
  result-pending n id i (found_record value) resp acc h k =
      elim (Bool-cases (leb (length value) max_record_bytes)) [
        | inl fits ↦ rw fits (push_record-pending i id value n.pending_get resp acc h)
        | inr large ↦ rw large (ground (arith, append-nil acc))
      ]

  -- While a get runs, its entry holds the records that came for it, in their order, and nothing that
  -- came for other queries.
  after_results-pending :
      (n : Node S) (id : QueryId) (resp : Waiter) (acc : List Bytes) (ps : List Progress)
      → lookup id n.pending_get ≡ some (resp, acc)
      → Runs id ps
      → lookup id (after_results n ps).pending_get ≡ some (resp, acc ++ gathered id ps)
  unfolding after_results
  after_results-pending n id resp acc [] h r = rw append-nil h
  after_results-pending n id resp acc ((i, res) ∷ ps) h (r, rs) =
      after_results-pending (handle_kad_result c sw n i res).0 id resp (acc ++ brought id (i, res))
        ps (result-pending n id i res resp acc h r) rs
      ∙ rw append_assoc

  -- A get that was entered with no records and is running is answered once, when it ends, by all the
  -- records that came for it and are within the size limit, in their order, whether it ended well
  -- or early; then its entry is gone.
  pub get-answered :
      (n : Node S) (id : QueryId) (resp : Waiter) (ps : List Progress) (last : KadResult)
      → lookup id n.pending_get ≡ some (resp, [])
      → Runs id ps
      → ends_get last ≡ true
      → ((handle_kad_result c sw (after_results n ps) id last).1
          ≡ records resp (gathered id ps) ∷ [])
        × (lookup id (handle_kad_result c sw (after_results n ps) id last).0.pending_get ≡ none)
  unfolding handle_kad_result
  get-answered n id resp ps finished h r e = (
    rw (after_results-pending n id resp [] ps h r),
    lookup-remove id id (after_results n ps).pending_get ∙ rw (beq_refl id),
  )
  get-answered n id resp ps (get_failed why) h r e = (
    rw (after_results-pending n id resp [] ps h r),
    lookup-remove id id (after_results n ps).pending_get ∙ rw (beq_refl id),
  )
  get-answered n id resp ps (put_result x) h r e = cc
  get-answered n id resp ps (found_record x) h r e = cc
  get-answered n id resp ps other_result h r e = cc
