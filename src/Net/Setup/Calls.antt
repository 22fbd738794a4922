-- ===== src/Net/Setup/Calls.antt =====
-- The calls that setting up a node makes on its swarm, read off the configuration: the part of
-- `spawn` of crates/net/src/node.rs after the swarm is built.
use dotminecraft.Prelude.{
  ℕ, ◌+◌, ◌≡◌, refl, sym, ◌∙◌, ltb, Option, none, some, List, [], ◌∷◌, ◌++◌, inl, inr, length, map,
  if◌then◌else◌, Result, ok, err, ◌>>=◌, Option-cases, Result-cases, arith,
}
use dotminecraft.Core.Text.{Str, text}
use dotminecraft.Net.Swarm.{Swarm, PeerId, Multiaddr, p2p_circuit}
use dotminecraft.Net.Setup.{
  NetConfig, peer_id_from_multiaddr, listen_one, listen_all, start_listening, add_peers,
  add_bootstrap, reserve_relays, prepare,
}

-- A call on the swarm: one whose failure ends the set-up, or one whose failure is only logged.
pub data Call : Type 0 where
  must_listen : Multiaddr → Call
  adds : PeerId → Multiaddr → Call
  bootstraps : Call
  tries_to_listen : Multiaddr → Call

-- An address that names a peer is added.
abbrev adding : Option PeerId → Multiaddr → List Call
adding none addr = []
adding (some peer) addr = adds peer addr ∷ []

pub additions : List Multiaddr → List Call
additions [] = []
additions (addr ∷ addrs) = adding (peer_id_from_multiaddr addr) addr ++ additions addrs

-- Bootstrapping is asked for after at least one peer.
abbrev then_bootstrap : List Call → List Call
then_bootstrap [] = []
then_bootstrap (call ∷ calls) = (call ∷ calls) ++ bootstraps ∷ []

pub reservations : List Multiaddr → List Call
reservations [] = []
reservations (relay ∷ relays) =
    adding (peer_id_from_multiaddr relay) relay
    ++ tries_to_listen (relay ++ p2p_circuit ∷ []) ∷ reservations relays

-- All calls, for the addresses that are listened on.
abbrev pub calls : List Multiaddr → NetConfig → List Call
calls listen cfg =
    map must_listen listen
    ++ then_bootstrap (additions cfg.bootstrap)
    ++ reservations cfg.reserve_relays

>>=-ok : {A : Type 0} (r : Result Str A) → (r >>= λ a. ok a) ≡ r
>>=-ok (ok a) = refl
>>=-ok (err x) = refl

module _ {S : Type 0} (sw : Swarm S) where
  abbrev pub perform : Call → S → Result Str S
  perform (must_listen addr) s = let (s', r) = sw.listen_on addr s in r >>= λ _. ok s'
  perform (adds peer addr) s = ok (sw.add_address peer addr s)
  perform bootstraps s = ok (sw.bootstrap s)
  perform (tries_to_listen addr) s = ok (sw.listen_on addr s).0

  abbrev pub perform_all : List Call → S → Result Str S
  perform_all [] s = ok s
  perform_all (call ∷ l) s = perform call s >>= λ s'. perform_all l s'

  perform_all-append :
      (xs ys : List Call) (s : S)
      → perform_all (xs ++ ys) s ≡ (perform_all xs s >>= λ s'. perform_all ys s')
  perform_all-append [] ys s = refl
  perform_all-append (call ∷ xs) ys s = elim (Result-cases (perform call s)) [
    | inl (s', e) ↦ rw e (perform_all-append xs ys s')
    | inr (x, e) ↦ rw e refl
  ]

  listen_all-perform :
      (l : List Multiaddr) (s : S) → listen_all sw l s ≡ perform_all (map must_listen l) s
  unfolding listen_one listen_all
  listen_all-perform [] s = refl
  listen_all-perform (addr ∷ l) s = elim (Result-cases (perform (must_listen addr) s)) [
    | inl (s', e) ↦ rw (e, listen_all) (listen_all-perform l s')
    | inr (x, e) ↦ rw (e, listen_all) refl
  ]

  add_peers-perform :
      (addrs : List Multiaddr) (s : S) (n : ℕ)
      → (perform_all (additions addrs) s ≡ ok (add_peers sw addrs s n).0)
        × ((add_peers sw addrs s n).1 ≡ n + length (additions addrs))
  unfolding additions add_peers
  add_peers-perform [] s n = (refl, omega arith)
  add_peers-perform (addr ∷ addrs) s n = elim (Option-cases (peer_id_from_multiaddr addr)) [
    | inl e ↦ rw (e, add_peers, additions) (add_peers-perform addrs s n)
    | inr (peer, e) ↦
        let (q, k) = add_peers-perform addrs (sw.add_address peer addr s) (n + 1) in
        rw (e, add_peers, additions) (q, omega arith)
  ]

  then_bootstrap-perform :
      (l : List Call) (s s' : S) (n : ℕ)
      → perform_all l s ≡ ok s'
      → n ≡ length l
      → perform_all (then_bootstrap l) s ≡ ok (if ltb 0 n then sw.bootstrap s' else s')
  then_bootstrap-perform [] s s' n h e = rw e h
  then_bootstrap-perform (call ∷ l) s s' n h e =
      perform_all-append (call ∷ l) (bootstraps ∷ []) s ∙ rw (h, e) (ground arith)

  add_bootstrap-perform :
      (addrs : List Multiaddr) (s : S)
      → perform_all (then_bootstrap (additions addrs)) s ≡ ok (add_bootstrap sw addrs s)
  unfolding add_bootstrap
  add_bootstrap-perform addrs s =
      let (q, k) = add_peers-perform addrs s 0 in
      then_bootstrap-perform (additions addrs) s (add_peers sw addrs s 0).0
        (add_peers sw addrs s 0).1 q (omega arith)

  reserve_relays-perform :
      (relays : List Multiaddr) (s : S)
      → perform_all (reservations relays) s ≡ ok (reserve_relays sw relays s)
  unfolding reservations reserve_relays
  reserve_relays-perform [] s = refl
  reserve_relays-perform (relay ∷ relays) s = elim (Option-cases (peer_id_from_multiaddr relay)) [
    | inl e ↦ rw (e, reserve_relays, reservations) (reserve_relays-perform relays _)
    | inr (peer, e) ↦ rw (e, reserve_relays, reservations) (reserve_relays-perform relays _)
  ]

  -- What comes after the listening does not fail.
  rest :
      (cfg : NetConfig) (r : Result Str S)
      → (r
          >>= (λ s. perform_all (then_bootstrap (additions cfg.bootstrap)) s)
          >>= (λ s. perform_all (reservations cfg.reserve_relays) s))
        ≡ (r >>= λ s. ok (reserve_relays sw cfg.reserve_relays (add_bootstrap sw cfg.bootstrap s)))
  rest cfg (err x) = refl
  rest cfg (ok s) =
      rw (add_bootstrap-perform cfg.bootstrap s) (reserve_relays-perform cfg.reserve_relays _)

-- Where a node listens: at the given addresses, or else at the two that stand for any port.
abbrev pub listening : Multiaddr → Multiaddr → List Multiaddr → List Multiaddr
listening tcp quic [] = tcp ∷ quic ∷ []
listening tcp quic (addr ∷ listen) = addr ∷ listen

module _ {S : Type 0} (sw : Swarm S) (tcp quic : Multiaddr)
    (tcp-parses : sw.parse_multiaddr (text "/ip4/0.0.0.0/tcp/0") ≡ ok tcp)
    (quic-parses : sw.parse_multiaddr (text "/ip4/0.0.0.0/udp/0/quic-v1") ≡ ok quic) where
  start_listening-perform :
      (listen : List Multiaddr) (s : S)
      → start_listening sw listen s ≡ perform_all sw (map must_listen (listening tcp quic listen)) s
  unfolding start_listening listen_one
  start_listening-perform [] s = elim (Result-cases (listen_one sw tcp s)) [
    | inr (x, e) ↦ rw (tcp-parses, e, start_listening) refl
    | inl (s', e) ↦
        rw (tcp-parses, e, start_listening, quic-parses) (sym (>>=-ok (listen_one sw quic s')))
  ]
  start_listening-perform (addr ∷ listen) s = listen_all-perform sw (addr ∷ listen) s

  -- Setting up a node makes exactly the calls that its configuration asks for, in this order: it
  -- listens at the given addresses, or else at the two that stand for any port, and stops with an
  -- error at the first that is refused; adds each bootstrap address that names a peer, and asks for a
  -- bootstrap if there is one; and, for each relay, adds its address if that names a peer and tries to
  -- listen through it, whatever comes of it.
  pub prepare-calls :
      (cfg : NetConfig) (s : S)
      → prepare sw cfg s ≡ perform_all sw (calls (listening tcp quic cfg.listen) cfg) s
  unfolding prepare
  prepare-calls cfg s =
      let listens = map must_listen (listening tcp quic cfg.listen) in
      let joins = then_bootstrap (additions cfg.bootstrap) in
      sym (
        perform_all-append sw (listens ++ joins) (reservations cfg.reserve_relays) s
        ∙ rw (perform_all-append sw listens joins s) (
            rw (sym (start_listening-perform cfg.listen s))
              (rest sw cfg (start_listening sw cfg.listen s))))
