-- ===== src/Net/Node/Waiters/Settled.antt =====
-- Every caller of the network task of crates/net/src/node.rs waits or has been answered: the ids of
-- the queries keep the entries apart.
use dotminecraft.Prelude.{
  ℕ, ◌+◌, ◌≤◌, ◌<◌, ◌≡◌, refl, List, [], ◌∷◌, Result, ok, err, arith, insert, nat_eq, Map,
}
use dotminecraft.Core.Text.{Str, Bytes}
use dotminecraft.Core.Crypto.{Crypto}
use dotminecraft.Net.Swarm.{Swarm, IssuesIds, QueryId, KadRecord}
use dotminecraft.Net.Message.{
  Waiter, Command, put_record, get_record, dial, doctor, Reply, Input, command, event,
}
use dotminecraft.Net.Node.{Node, await_put, expiry, handle_command, turn, event_loop, new_node}
use dotminecraft.Net.Node.Waiters.Tidy.{IsTidyNode, Under-mono, Tidy-same, handle_event-IsTidy}
use dotminecraft.Net.Node.Waiters.{
  tally, Distinct, Under, get_waiter, put_waiter, hit, waits, asks, asked, answered, All-remove,
  Distinct-remove, remove-Avoids, Under-Avoids, tally-Avoids, answered-append, handle_event-waits,
}

module _ (c : Crypto) {S : Type 0} (sw : Swarm S) (ids : IssuesIds sw) where
  -- What a new query brings in: an entry under an id that is not in use.
  insert-Distinct :
      {V : Type 0} (next id : ℕ) (v : V) (m : Map QueryId V) → Distinct m → Distinct (insert id v m)
  unfolding insert
  insert-Distinct next id v m h = (remove-Avoids id m, Distinct-remove id m h)

  insert-Under :
      {V : Type 0} (a b id : ℕ) (v : V) (m : Map QueryId V)
      → a ≤ id
      → id < b
      → Under a m
      → Under b (insert id v m)
  unfolding insert
  insert-Under a b id v m le lt h =
      (lt, All-remove (λ e. e.0 < b) id m (Under-mono a b m (omega arith) h))

  insert-tally :
      {V : Type 0} (waiter : V → Waiter) (w next id : ℕ) (v : V) (m : Map QueryId V)
      → next ≤ id
      → Under next m
      → tally waiter w (insert id v m) ≡ hit w (waiter v) + tally waiter w m
  unfolding insert
  insert-tally waiter w next id v m le h =
      omega (arith, (tally-Avoids waiter w id m (Under-Avoids next id m le h)).0)

  -- A command's caller is answered at once, or waits.
  abbrev Settles : ℕ → Node S → Input → Node S × List Reply → Type 0
  Settles w n i (n', replies) =
      (waits w n' + answered w replies ≡ waits w n + asks w i) × IsTidyNode c sw ids n'

  await-Settles :
      (w instant : ℕ) (n : Node S) (key value : Bytes) (resp : Waiter) (s : S)
      (res : Result Str QueryId)
      → ids.next_id n.swarm ≤ ids.next_id s
      → ((id : QueryId) → res ≡ ok id → (ids.next_id n.swarm ≤ id) × (id < ids.next_id s))
      → IsTidyNode c sw ids n
      → Settles w n (command instant (put_record key value resp)) (await_put c sw n resp (s, res))
  await-Settles w instant n key value resp s (err x) grows new t =
      (omega arith, Tidy-same _ _ n _ grows refl refl t)
  await-Settles w instant n key value resp s (ok id) grows new t =
      let (lo, hi) = new id refl in
      (
        omega (
          arith,
          insert-tally put_waiter w (ids.next_id n.swarm) id resp n.pending_put lo t.put_under,
        ),
        record {
          put_distinct = insert-Distinct (ids.next_id n.swarm) id resp n.pending_put t.put_distinct;
          get_distinct = t.get_distinct;
          put_under = insert-Under _ _ id resp n.pending_put lo hi t.put_under;
          get_under = Under-mono _ _ n.pending_get grows t.get_under;
        },
      )

  command-Settles :
      (w instant : ℕ) (n : Node S) (cmd : Command)
      → IsTidyNode c sw ids n
      → Settles w n (command instant cmd) (handle_command c sw instant n cmd)
  unfolding handle_command
  command-Settles w instant n (put_record key value resp) t =
      let r : KadRecord = record {
        key = key;
        value = value;
        expires = expiry c sw instant value;
      } in
      let (s, res) = sw.put_record r n.swarm in
      await-Settles w instant n key value resp s res (ids.put_grows r n.swarm)
        (ids.put_id r n.swarm) t
  command-Settles w instant n (get_record key resp) t =
      let (s, id) = sw.get_record key n.swarm in
      let (lo, hi) = ids.get_id key n.swarm in
      (
        omega (
          arith,
          insert-tally get_waiter w (ids.next_id n.swarm) id (resp, []) n.pending_get lo
              t.get_under,
        ),
        record {
          put_distinct = t.put_distinct;
          get_distinct =
              insert-Distinct (ids.next_id n.swarm) id (resp, []) n.pending_get t.get_distinct;
          put_under = Under-mono _ _ n.pending_put (omega arith) t.put_under;
          get_under = insert-Under _ _ id (resp, []) n.pending_get lo hi t.get_under;
        },
      )
  command-Settles w instant n (dial addr resp) t =
      (omega arith, Tidy-same _ _ n _ (ids.dial_grows addr n.swarm) refl refl t)
  command-Settles w instant n (doctor resp) t = (omega arith, t)

  turn-Settles :
      (w : Waiter) (n : Node S) (i : Input) → IsTidyNode c sw ids n → Settles w n i (turn c sw n i)
  unfolding turn
  turn-Settles w n (command instant cmd) t = command-Settles w instant n cmd t
  turn-Settles w n (event now instant e) t = (
    omega (arith, handle_event-waits c sw w now instant n e t.put_distinct t.get_distinct),
    handle_event-IsTidy c sw ids now instant n e t,
  )

  -- Over any row of commands and events, each caller is as often answered or still waiting as it was
  -- waiting before or has asked, if the ids of the entries were distinct at the start and below those
  -- that the swarm gives out.
  pub event_loop-waits :
      (w : Waiter) (n : Node S) (inputs : List Input)
      → IsTidyNode c sw ids n
      → waits w (event_loop c sw n inputs).0 + answered w (event_loop c sw n inputs).1
        ≡ waits w n + asked w inputs
  unfolding event_loop
  event_loop-waits w n [] t = omega arith
  event_loop-waits w n (i ∷ inputs) t =
      let (settled, tidy) = turn-Settles w n i t in
      let (n', replies) = turn c sw n i in
      omega (
        arith,
        settled,
        event_loop-waits w n' inputs tidy,
        answered-append w replies (event_loop c sw n' inputs).1,
      )

  new_node-IsTidy : (s : S) → IsTidyNode c sw ids (new_node c sw s)
  unfolding new_node
  new_node-IsTidy s = record {
    put_distinct = tt;
    get_distinct = tt;
    put_under = tt;
    get_under = tt;
  }

  -- No caller is lost and none is answered twice: from the start of the network task, over any row of
  -- commands and events, each caller is as often answered or still waiting as it has asked, if the
  -- swarm gives out no query id twice.
  pub new_node-waits :
      (w : Waiter) (s : S) (inputs : List Input)
      → waits w (event_loop c sw (new_node c sw s) inputs).0
          + answered w (event_loop c sw (new_node c sw s) inputs).1
        ≡ asked w inputs
  unfolding new_node
  new_node-waits w s inputs =
      omega (arith, event_loop-waits w (new_node c sw s) inputs (new_node-IsTidy s))
