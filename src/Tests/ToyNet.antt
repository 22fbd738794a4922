-- ===== src/Tests/ToyNet.antt =====
-- A concrete swarm: its state is the record store alone, and every call succeeds.
use dotminecraft.Prelude.{
  List, ◌≡◌, ◌≢◌, inl, refl, ◌∙◌, [], ◌∷◌, Map, lookup, insert, lookup-insert, beq_refl,
  sequence_eq, seq_eq_iff, ok, true, ok-injective, arith, ℕ, suc, none, replicate,
}
use dotminecraft.Core.Text.{Bytes, text}
use dotminecraft.Net.Swarm.{Swarm, KeepsStore, IssuesIds, KadRecord, other}
use dotminecraft.Core.Crypto.{Crypto}
use dotminecraft.Net.Message.{
  Event, ping, connection_closed, external_addr_confirmed, identified, mdns_discovered,
  query_progressed, inbound_put, other_event,
}
use dotminecraft.Net.Behaviour.{Builder}
use dotminecraft.Net.Node.{Node, handle_event}
use dotminecraft.Net.Node.Register.{HasRoom, Takes}

abbrev pub Store : Type 0
Store = Map Bytes Bytes

unfoldable pub toy_net : Swarm Store
unfolding lookup insert
toy_net = record {
  put_record = λ r s. (insert r.key r.value s, ok 1);
  get_record = λ k s. (s, 1);
  add_address = λ p a s. s;
  bootstrap = λ s. s;
  dial = λ a s. (s, ok tt);
  listen_on = λ a s. (s, ok tt);
  store_get = λ k s. lookup k s;
  store_put = λ r s. insert r.key r.value s;
  listeners = λ s. [];
  connected_peers = λ s. 0;
  nat_status = λ s. text "Unknown";
  local_peer_id = λ s. replicate 32 1;
  addr_to_string = λ a. [];
  peer_to_string = λ p. p;
  parse_multiaddr = λ t. ok (other t ∷ []);
  peer_id_from_ed25519 = λ k. ok k;
}

put_other :
    (r : KadRecord) (k : Bytes) (s : Store)
    → r.key ≢ k
    → lookup k (insert r.key r.value s) ≡ lookup k s
put_other r k s h = lookup-insert r.key k r.value s ∙ ground (arith, seq_eq_iff r.key k)

pub toy_net-KeepsStore : KeepsStore toy_net
unfolding toy_net
toy_net-KeepsStore = record {
  put_self = λ r s. inl (lookup-insert r.key r.key r.value s ∙ rw (beq_refl r.key));
  put_other = put_other;
  add_address_store = λ p a k s. refl;
  dial_store = λ a k s. refl;
}

module _ (c : Crypto) (key : Bytes) where
  toy_net-Takes : (s : Store) (e : Event) → Takes c toy_net key s e
  unfolding toy_net
  toy_net-Takes s (inbound_put r) =
      λ rec h same expires. lookup-insert r.key r.key r.value s ∙ rw (beq_refl r.key)
  toy_net-Takes s (ping p ms) = tt
  toy_net-Takes s (connection_closed p k) = tt
  toy_net-Takes s (external_addr_confirmed a) = tt
  toy_net-Takes s (identified p addrs) = tt
  toy_net-Takes s (mdns_discovered l) = tt
  toy_net-Takes s (query_progressed id res) = tt
  toy_net-Takes s other_event = tt

  pub toy_net-HasRoom : (n : Node Store) (es : List (ℕ × ℕ × Event)) → HasRoom c toy_net key n es
  toy_net-HasRoom n [] = tt
  toy_net-HasRoom n ((now, instant, e) ∷ es) =
      (toy_net-Takes n.swarm e, toy_net-HasRoom (handle_event c toy_net now instant n e).0 es)

-- A builder that always succeeds; the peer of a key is the key.
unfoldable pub builder : Builder Store
builder = record {
  ed25519_from_bytes = λ secret. ok secret;
  to_peer_id = λ key. key;
  with_tcp = ok tt;
  with_dns = ok tt;
  with_relay_client = ok tt;
  mdns_starts = true;
  build = λ k b t. [];
}

-- A swarm without a record store, which counts its queries.
unfoldable pub counting_net : Swarm ℕ
counting_net = record {
  put_record = λ r s. (suc s, ok s);
  get_record = λ k s. (suc s, s);
  add_address = λ p a s. s;
  bootstrap = λ s. s;
  dial = λ a s. (s, ok tt);
  listen_on = λ a s. (s, ok tt);
  store_get = λ k s. none;
  store_put = λ r s. s;
  listeners = λ s. [];
  connected_peers = λ s. 0;
  nat_status = λ s. text "Unknown";
  local_peer_id = λ s. [];
  addr_to_string = λ a. [];
  peer_to_string = λ p. p;
  parse_multiaddr = λ t. ok (other t ∷ []);
  peer_id_from_ed25519 = λ k. ok k;
}

unfoldable pub counting_net-IssuesIds : IssuesIds counting_net
unfolding counting_net
counting_net-IssuesIds = record {
  next_id = λ s. s;
  put_id = λ r s id h. let e : s ≡ id = ok-injective h in (omega arith, omega arith);
  put_grows = λ r s. omega arith;
  get_id = λ key s. (omega arith, omega arith);
  add_address_grows = λ p a s. omega arith;
  dial_grows = λ a s. omega arith;
  store_put_grows = λ r s. omega arith;
}
