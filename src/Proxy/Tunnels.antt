-- ===== src/Proxy/Tunnels.antt =====
-- `run_publish` and `run_connect` of crates/proxy/src/lib.rs. Each is one loop that accepts
-- connections and spawns a task for each tunnel; the tasks end at any time, also between the
-- loop's reading of `live` and its `fetch_add`, so the loop and the tasks are interleaved step by
-- step. A tunnel's task is counted from its spawning to its `fetch_sub`; whether it could reach the
-- other side, and what it pumped, makes no difference to the counters.
pub mod Caps
use dotminecraft.Prelude.{ℕ, ◌+◌, ◌-◌, ◌≤◌, ◌<◌, ◌≡◌, leb, if◌then◌else◌}
use dotminecraft.Proxy.Limiter.{Floats, RateLimiter, new, allow}

abbrev pub connect_max_conns : ℕ
connect_max_conns = 128

abbrev pub connect_max_conn_rate : ℕ
connect_max_conn_rate = 64

-- Where the loop stands.
pub data Phase : Type 0 where
  -- at `incoming.next()` or `listener.accept()`
  waiting : Phase
  -- past `rate.allow()`
  rated : Phase
  -- past the test of `live` against the cap
  admitted : Phase

pub record Proxy (F : Type 0) : Type 0 where
  pub phase : Phase
  pub rate : RateLimiter F
  -- the `AtomicUsize`
  pub live : ℕ
  -- the tunnels whose task has not ended, and all that were ever spawned
  pub open_tunnels : ℕ
  pub spawned : ℕ

module _ {F : Type 0} (fl : Floats F) where
  unfoldable pub start : ℕ → ℕ → Proxy F
  start per_sec now = record {
    phase = waiting;
    rate = new fl per_sec now;
    live = 0;
    open_tunnels = 0;
    spawned = 0;
  }

  -- A connection comes in at `now`; over the rate it is dropped.
  unfoldable pub arrive : ℕ → Proxy F → Proxy F
  arrive now p =
      let (rate', allowed) = allow fl now p.rate in
      record p { rate = rate'; phase = if allowed then rated else waiting }

-- `live.load()` against the cap; at the cap the connection is dropped.
unfoldable pub check_cap : {F : Type 0} → ℕ → Proxy F → Proxy F
check_cap max_conns p = record p { phase = if leb max_conns p.live then waiting else admitted }

-- `live.fetch_add(1)` and the spawning of the task.
unfoldable pub spawn : {F : Type 0} → Proxy F → Proxy F
spawn p = record p {
  phase = waiting;
  live = p.live + 1;
  open_tunnels = p.open_tunnels + 1;
  spawned = p.spawned + 1;
}

-- A task ends: `live.fetch_sub(1)`.
unfoldable pub finish : {F : Type 0} → Proxy F → Proxy F
finish p = record p { live = p.live - 1; open_tunnels = p.open_tunnels - 1 }

pub data Step {F : Type 0} (fl : Floats F) (max_conns : ℕ) (p : Proxy F) : Proxy F → Type 0 where
  arrives :
      (now : ℕ) → p.phase ≡ waiting → p.rate.last ≤ now → Step fl max_conns p (arrive fl now p)
  checks : p.phase ≡ rated → Step fl max_conns p (check_cap max_conns p)
  spawns : p.phase ≡ admitted → Step fl max_conns p (spawn p)
  finishes : 0 < p.open_tunnels → Step fl max_conns p (finish p)

-- The states that a proxy with this cap and this rate, begun at `now`, can be in.
pub data Reach {F : Type 0} (fl : Floats F) (max_conns per_sec now : ℕ) : Proxy F → Type 0 where
  begins : Reach fl max_conns per_sec now (start fl per_sec now)
  goes :
      {p q : Proxy F}
      → Reach fl max_conns per_sec now p
      → Step fl max_conns p q
      → Reach fl max_conns per_sec now q

-- The two loops.
abbrev pub RunPublish : {F : Type 0} → Floats F → ℕ → ℕ → ℕ → Proxy F → Type 0
RunPublish fl max_conns new_conn_per_sec now p = Reach fl max_conns new_conn_per_sec now p

abbrev pub RunConnect : {F : Type 0} → Floats F → ℕ → Proxy F → Type 0
RunConnect fl now p = Reach fl connect_max_conns connect_max_conn_rate now p
