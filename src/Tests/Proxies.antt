-- ===== src/Tests/Proxies.antt =====
-- Tests of crates/proxy.
use dotminecraft.Prelude.{ℕ, ◌+◌, ◌-◌, ◌*◌, ◌≤◌, ◌≡◌, refl, true, false, leb, min, arith}
use dotminecraft.Proxy.Limiter.{Floats, RateLimiter, new, refill, spend, allow}
use dotminecraft.Proxy.Tunnels.{
  Proxy, start, arrive, check_cap, spawn, finish, arrives, checks, spawns, Reach, begins, goes,
}
use dotminecraft.Proxy.Tunnels.Caps.{open_tunnels-le-max_conns}

-- A stand-in by natural numbers, in which a nanosecond counts as a second.
abbrev pub toy_floats : Floats ℕ
toy_floats = record {
  from_u32 = λ n. n;
  as_secs_f64 = λ nanos. nanos;
  add = λ a b. a + b;
  sub = λ a b. a - b;
  mul = λ a b. a * b;
  min = min;
  one = 1;
  ge = λ a b. leb b a;
}

proxying : Unit {0}
unfolding new refill spend allow start arrive check_cap spawn finish
proxying = tt

-- A limiter of one a second at rest, twice at once, and after it has been refilled.
abbrev limiter : RateLimiter ℕ
limiter = new toy_floats 1 0

limiter_tests :
    ((allow toy_floats 0 limiter).1 ≡ true)
    × ((allow toy_floats 0 (allow toy_floats 0 limiter).0).1 ≡ false)
    × ((allow toy_floats 1 (allow toy_floats 0 limiter).0).1 ≡ true)
    × ((allow toy_floats 0 (new toy_floats 0 0)).1 ≡ true)
unfolding proxying
limiter_tests = (refl, refl, refl, refl)

abbrev opened : Proxy ℕ
opened = spawn (check_cap 2 (arrive toy_floats 5 (start toy_floats 4 0)))

opened-Reach : Reach toy_floats 2 4 0 opened
unfolding proxying
opened-Reach = goes (goes (goes begins (arrives 5 refl (omega arith))) (checks refl)) (spawns refl)

open_tunnels-le-max_conns_example : (opened.live ≡ opened.open_tunnels) × (opened.open_tunnels ≤ 2)
open_tunnels-le-max_conns_example = open_tunnels-le-max_conns toy_floats 2 4 0 opened opened-Reach
