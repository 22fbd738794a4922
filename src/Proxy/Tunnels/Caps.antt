-- ===== src/Proxy/Tunnels/Caps.antt =====
-- The caps of the two proxy loops: how many tunnels are open at once.
use dotminecraft.Prelude.{ℕ, ◌+◌, ◌≤◌, ◌<◌, ◌≡◌, arith}
use dotminecraft.Proxy.Limiter.{Floats}
use dotminecraft.Proxy.Tunnels.{
  Phase, waiting, rated, admitted, Proxy, start, arrive, check_cap, spawn, finish, Step, arrives,
  checks, spawns, finishes, Reach, begins, goes,
}

abbrev pub room : Phase → ℕ
room admitted = 1
room _ = 0

pub record Inv {F : Type 0} (max_conns : ℕ) (p : Proxy F) : Type 0 where
  pub counted : p.live ≡ p.open_tunnels
  pub capped : p.open_tunnels + room p.phase ≤ max_conns

module _ {F : Type 0} (fl : Floats F) {max_conns : ℕ} where
  start-Inv : (per_sec now : ℕ) → Inv max_conns (start fl per_sec now)
  unfolding start
  start-Inv per_sec now = ground arith

  arrive-Inv :
      (t : ℕ) (p : Proxy F) → p.phase ≡ waiting → Inv max_conns p → Inv max_conns (arrive fl t p)
  unfolding arrive
  arrive-Inv t p w v = ground arith

  check_cap-Inv :
      (p : Proxy F) → p.phase ≡ rated → Inv max_conns p → Inv max_conns (check_cap max_conns p)
  unfolding check_cap
  check_cap-Inv p w v = ground arith

  spawn-Inv : (p : Proxy F) → p.phase ≡ admitted → Inv max_conns p → Inv max_conns (spawn p)
  unfolding spawn
  spawn-Inv p w v = ground arith

  finish-Inv : (p : Proxy F) → 0 < p.open_tunnels → Inv max_conns p → Inv max_conns (finish p)
  unfolding finish
  finish-Inv p h v = ground arith

  Step-Inv : {p q : Proxy F} → Step fl max_conns p q → Inv max_conns p → Inv max_conns q
  Step-Inv {p} (arrives t w h) v = arrive-Inv t p w v
  Step-Inv {p} (checks w) v = check_cap-Inv p w v
  Step-Inv {p} (spawns w) v = spawn-Inv p w v
  Step-Inv {p} (finishes h) v = finish-Inv p h v

  Reach-Inv : {per_sec now : ℕ} {p : Proxy F} → Reach fl max_conns per_sec now p → Inv max_conns p
  Reach-Inv {per_sec} {now} begins = start-Inv per_sec now
  Reach-Inv (goes r st) = Step-Inv st (Reach-Inv r)

-- Whatever the interleaving of the loop and the ends of tunnels, and however `f64` rounds, the
-- counter is the number of open tunnels, and that number is at most the cap.
pub open_tunnels-le-max_conns :
    {F : Type 0} (fl : Floats F) (max_conns per_sec now : ℕ) (p : Proxy F)
    → Reach fl max_conns per_sec now p
    → (p.live ≡ p.open_tunnels) × (p.open_tunnels ≤ max_conns)
open_tunnels-le-max_conns fl max_conns per_sec now p r =
    let v = Reach-Inv fl r in (v.counted, omega (arith, v.capped))
