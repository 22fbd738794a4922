-- ===== src/Proxy/Limiter.antt =====
-- `RateLimiter` of crates/proxy/src/lib.rs. Time is in nanoseconds, as `Instant` keeps it. The
-- operations of `f64` are those of the record `Floats`: nothing is assumed of how they round.
use dotminecraft.Prelude.{ℕ, ◌-◌, Bool, true, false, max, if◌then◌else◌}

-- What the limiter uses of `f64`.
pub record Floats (F : Type 0) : Type 0 where
  -- `as f64`, and the seconds of a `Duration` of this many nanoseconds
  pub from_u32 : ℕ → F
  pub as_secs_f64 : ℕ → F
  pub add : F → F → F
  pub sub : F → F → F
  pub mul : F → F → F
  pub min : F → F → F
  -- `1.0`, and `>=`
  pub one : F
  pub ge : F → F → Bool

pub record RateLimiter (F : Type 0) : Type 0 where
  pub tokens : F
  pub capacity : F
  pub refill_per_sec : F
  pub last : ℕ

module _ {F : Type 0} (fl : Floats F) where
  unfoldable pub new : ℕ → ℕ → RateLimiter F
  new per_sec now =
      let cap = fl.from_u32 (max per_sec 1) in
      record { tokens = cap; capacity = cap; refill_per_sec = cap; last = now }

  -- `duration_since` gives zero where the clock would have gone back, as `-` does.
  unfoldable pub refill : ℕ → RateLimiter F → RateLimiter F
  refill now rl =
      let elapsed = fl.as_secs_f64 (now - rl.last) in
      record rl {
        tokens = fl.min (fl.add rl.tokens (fl.mul elapsed rl.refill_per_sec)) rl.capacity;
        last = now;
      }

  unfoldable pub spend : RateLimiter F → RateLimiter F × Bool
  spend rl =
      if fl.ge rl.tokens fl.one
      then (record rl { tokens = fl.sub rl.tokens fl.one }, true)
      else (rl, false)

  unfoldable pub allow : ℕ → RateLimiter F → RateLimiter F × Bool
  unfolding refill spend
  allow now rl = spend (refill now rl)
