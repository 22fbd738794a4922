-- ===== src/Net/Node/Peers.antt =====
-- What the network task of crates/net/src/node.rs knows of peers: the round-trip times, and the
-- external addresses of this node.
use dotminecraft.Prelude.{
  ℕ, ◌^◌, ◌%◌, ◌≡◌, ◌↔◌, ◌⊎◌, inl, inr, refl, sym, ap, ◌∙◌, true, any, Option, none, some, List, [],
  ◌∷◌, ◌++◌, ◌==◌, seq_eq, seq_eq_iff, arith, Bool-cases, if◌then◌else◌, lookup, Elem,
  lookup-insert, lookup-remove, nat_eq, sequence_eq,
}
use dotminecraft.Core.Crypto.{Crypto}
use dotminecraft.Net.Swarm.{Swarm, PeerId, Multiaddr, Protocol, p2p, p2p_circuit, other}
use dotminecraft.Net.Message.{
  Event, ping, connection_closed, external_addr_confirmed, identified, mdns_discovered,
  query_progressed, inbound_put, other_event, KadResult,
}
use dotminecraft.Net.Node.{Node, protocol_eq, addr_eq, rtt_ms, handle_event, handle_kad_result}
use dotminecraft.Net.Node.Inbound.{after_events}

-- The last round-trip time to a peer since its last full disconnection, read off the events.
abbrev pub latest : PeerId → List (ℕ × ℕ × Event) → Option ℕ → Option ℕ
latest q [] old = old
latest q ((_, _, ping p ms) ∷ es) old = latest q es (if seq_eq p q then some (ms % 2 ^ 64) else old)
latest q ((_, _, connection_closed p k) ∷ es) old =
    latest q es (if k == 0 then (if seq_eq p q then none else old) else old)
latest q (_ ∷ es) old = latest q es old

kad_result-rtt :
    (c : Crypto) {S : Type 0} (sw : Swarm S) (n : Node S) (id : ℕ) (res : KadResult)
    → (handle_kad_result c sw n id res).0.rtt ≡ n.rtt
unfolding handle_kad_result
kad_result-rtt c sw n id res = ground arith

module _ (c : Crypto) {S : Type 0} (sw : Swarm S) where
  -- `rtt_ms` answers with the last measured time to that peer since it last disconnected wholly, and
  -- with nothing where there is none.
  pub rtt_ms-latest :
      (n : Node S) (es : List (ℕ × ℕ × Event)) (q : PeerId)
      → rtt_ms (after_events c sw n es) q ≡ latest q es (rtt_ms n q)
  unfolding after_events rtt_ms handle_event
  rtt_ms-latest n [] q = refl
  rtt_ms-latest n ((now, t, ping p ms) ∷ es) q =
      rtt_ms-latest (handle_event c sw now t n (ping p ms)).0 es q
      ∙ ap (latest q es) (lookup-insert p q (ms % 2 ^ 64) n.rtt)
  rtt_ms-latest n ((now, t, connection_closed p k) ∷ es) q =
      rtt_ms-latest (handle_event c sw now t n (connection_closed p k)).0 es q
      ∙ ap (latest q es) (ground (arith, lookup-remove p q n.rtt))
  rtt_ms-latest n ((now, t, external_addr_confirmed a) ∷ es) q =
      rtt_ms-latest (handle_event c sw now t n (external_addr_confirmed a)).0 es q
      ∙ ap (latest q es) (ground arith)
  rtt_ms-latest n ((now, t, query_progressed id res) ∷ es) q =
      rtt_ms-latest (handle_event c sw now t n (query_progressed id res)).0 es q
      ∙ ap (λ m. latest q es (lookup q m)) (kad_result-rtt c sw n id res)
  rtt_ms-latest n ((now, t, identified p l) ∷ es) q =
      rtt_ms-latest (handle_event c sw now t n (identified p l)).0 es q
  rtt_ms-latest n ((now, t, mdns_discovered l) ∷ es) q =
      rtt_ms-latest (handle_event c sw now t n (mdns_discovered l)).0 es q
  rtt_ms-latest n ((now, t, inbound_put r) ∷ es) q =
      rtt_ms-latest (handle_event c sw now t n (inbound_put r)).0 es q
  rtt_ms-latest n ((now, t, other_event) ∷ es) q =
      rtt_ms-latest (handle_event c sw now t n other_event).0 es q

protocol_eq_iff : (p q : Protocol) → (protocol_eq p q ≡ true) ↔ (p ≡ q)
unfolding protocol_eq
protocol_eq_iff (p2p a) (p2p b) = ground (arith, seq_eq_iff a b)
protocol_eq_iff p2p_circuit p2p_circuit = ground arith
protocol_eq_iff (other a) (other b) = ground (arith, seq_eq_iff a b)
protocol_eq_iff p q = ground arith

addr_eq_iff : (a b : Multiaddr) → (addr_eq a b ≡ true) ↔ (a ≡ b)
unfolding addr_eq
addr_eq_iff [] [] = ground arith
addr_eq_iff [] (q ∷ b) = ground arith
addr_eq_iff (p ∷ a) [] = ground arith
addr_eq_iff (p ∷ a) (q ∷ b) = ground (arith, protocol_eq_iff p q, addr_eq_iff a b)

any-Elem : (a : Multiaddr) (l : List Multiaddr) → (any (addr_eq a) l ≡ true) ↔ Elem a l
any-Elem a [] = ground arith
any-Elem a (b ∷ l) = ground (arith, addr_eq_iff a b, any-Elem a l)

abbrev pub Distinct : List Multiaddr → Type 0
Distinct [] = Unit
Distinct (a ∷ l) = (¬ Elem a l) × Distinct l

Elem-snoc : (a b : Multiaddr) (l : List Multiaddr) → Elem a (l ++ b ∷ []) ↔ (Elem a l ⊎ (a ≡ b))
Elem-snoc a b [] = ground arith
Elem-snoc a b (d ∷ l) = ground (arith, Elem-snoc a b l)

Distinct-snoc :
    (b : Multiaddr) (l : List Multiaddr) → Distinct l → ¬ Elem b l → Distinct (l ++ b ∷ [])
Distinct-snoc b [] d h = ((λ e. e), tt)
Distinct-snoc b (a ∷ l) (x, d) h = (
  λ m. elim ((Elem-snoc a b l).0 m) [ inl k ↦ x k | inr e ↦ h (inl (sym e)) ],
  Distinct-snoc b l d (λ k. h (inr k)),
)

-- The addresses that the events confirm.
abbrev pub confirmed : List (ℕ × ℕ × Event) → List Multiaddr
confirmed [] = []
confirmed ((_, _, external_addr_confirmed a) ∷ es) = a ∷ confirmed es
confirmed (_ ∷ es) = confirmed es

-- `l` grown by the addresses of `extra`, with none twice.
pub record Grown (l extra l' : List Multiaddr) : Type 0 where
  pub distinct : Distinct l'
  pub members : (a : Multiaddr) → Elem a l' ↔ (Elem a l ⊎ Elem a extra)

confirm_step :
    {S : Type 0} (n : Node S) (a : Multiaddr)
    → Distinct n.external_addrs
    → Grown n.external_addrs
        (a ∷ [])
        (if any (addr_eq a) n.external_addrs
          then n
          else record n { external_addrs = n.external_addrs ++ a ∷ [] }).external_addrs
confirm_step n a d = elim (Bool-cases (any (addr_eq a) n.external_addrs)) [
  | inl old ↦
      let m = (any-Elem a n.external_addrs).0 old in
      rw old (record {
        distinct = d;
        members = λ b. (
          λ k. inl k,
          λ k. elim k [ inl x ↦ x | inr e ↦ elim e [ inl p ↦ rw p m | inr x ↦ absurd x ] ],
        );
      })
  | inr new ↦ rw new (record {
    distinct =
        Distinct-snoc a n.external_addrs d (λ m. cc (new, (any-Elem a n.external_addrs).1 m));
    members = λ b. let (to, from) = Elem-snoc b a n.external_addrs in ground arith;
  })
]

Grown-trans :
    (a : Multiaddr) (l m k extra : List Multiaddr)
    → Grown l (a ∷ []) m
    → Grown m extra k
    → Grown l (a ∷ extra) k
Grown-trans a l m k extra g h = record {
  distinct = h.distinct;
  members = λ b. let p = g.members b in let q = h.members b in ground arith;
}

kad_result-external :
    (c : Crypto) {S : Type 0} (sw : Swarm S) (n : Node S) (id : ℕ) (res : KadResult)
    → (handle_kad_result c sw n id res).0.external_addrs ≡ n.external_addrs
unfolding handle_kad_result
kad_result-external c sw n id res = ground arith

closed-external :
    (c : Crypto) {S : Type 0} (sw : Swarm S) (now t : ℕ) (n : Node S) (p : PeerId) (k : ℕ)
    → (handle_event c sw now t n (connection_closed p k)).0.external_addrs ≡ n.external_addrs
unfolding handle_event
closed-external c sw now t n p k = ground arith

module _ (c : Crypto) {S : Type 0} (sw : Swarm S) where
  -- The addresses by which a node says it can be reached are those that it began with and those that
  -- were confirmed since, none of them twice.
  pub external_addrs-Grown :
      (n : Node S) (es : List (ℕ × ℕ × Event))
      → Distinct n.external_addrs
      → Grown n.external_addrs (confirmed es) (after_events c sw n es).external_addrs
  unfolding after_events handle_event
  external_addrs-Grown n [] d = record {
    distinct = d;
    members = λ a. ((λ m. inl m), λ m. elim m [ inl x ↦ x | inr x ↦ absurd x ]);
  }
  external_addrs-Grown n ((now, t, external_addr_confirmed a) ∷ es) d =
      let g = confirm_step n a d in
      Grown-trans a n.external_addrs _ _ (confirmed es) g (
        external_addrs-Grown (handle_event c sw now t n (external_addr_confirmed a)).0 es
          g.distinct)
  external_addrs-Grown n ((now, t, ping p ms) ∷ es) d =
      external_addrs-Grown (handle_event c sw now t n (ping p ms)).0 es d
  external_addrs-Grown n ((now, t, connection_closed p k) ∷ es) d =
      let same = closed-external c sw now t n p k in
      rw same at
        (external_addrs-Grown (handle_event c sw now t n (connection_closed p k)).0 es (rw same d))
  external_addrs-Grown n ((now, t, query_progressed id res) ∷ es) d =
      let same = kad_result-external c sw n id res in
      rw same at (
        external_addrs-Grown (handle_event c sw now t n (query_progressed id res)).0 es (rw same d))
  external_addrs-Grown n ((now, t, identified p l) ∷ es) d =
      external_addrs-Grown (handle_event c sw now t n (identified p l)).0 es d
  external_addrs-Grown n ((now, t, mdns_discovered l) ∷ es) d =
      external_addrs-Grown (handle_event c sw now t n (mdns_discovered l)).0 es d
  external_addrs-Grown n ((now, t, inbound_put r) ∷ es) d =
      external_addrs-Grown (handle_event c sw now t n (inbound_put r)).0 es d
  external_addrs-Grown n ((now, t, other_event) ∷ es) d =
      external_addrs-Grown (handle_event c sw now t n other_event).0 es d
