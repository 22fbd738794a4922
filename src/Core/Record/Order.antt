-- ===== src/Core/Record/Order.antt =====
-- `select_verified` of crates/core/src/record.rs does not depend on the order of the candidates.
use mathlib.Core.List.{Perm, foldr}
use mathlib.Core.List.Perm
use native.Mathlib.Nat.{ℕ_set}
use dotminecraft.Prelude.{
  ℕ, suc, ◌≡◌, inl, inr, refl, sym, ◌∙◌, Option, none, some, List, [], ◌∷◌, max, filter_map, arith,
  Option-cases,
}
use dotminecraft.Core.Text.{Str, Bytes}
use dotminecraft.Core.Body.{Record}
use dotminecraft.Core.Crypto.{Crypto}
use dotminecraft.Core.Record.{newest_from, max_by_ts, verified_candidate, select_verified}

-- The time of a record, after the time of none.
abbrev pub stamp : Option Record → ℕ
stamp none = 0
stamp (some r) = suc r.body.ts

abbrev later : Record → ℕ → ℕ
later r m = max (suc r.body.ts) m

stamp-newest_from :
    (best : Record) (rs : List Record)
    → stamp (some (newest_from best rs)) ≡ max (suc best.body.ts) (foldr later 0 rs)
unfolding newest_from
stamp-newest_from best [] = omega arith
stamp-newest_from best (r ∷ rs) = ground (arith, stamp-newest_from best rs, stamp-newest_from r rs)

stamp-max_by_ts : (rs : List Record) → stamp (max_by_ts rs) ≡ foldr later 0 rs
unfolding max_by_ts
stamp-max_by_ts [] = refl
stamp-max_by_ts (r ∷ rs) = stamp-newest_from r rs

module _ (f : Bytes → Option Record) where
  abbrev step : Bytes → ℕ → ℕ
  step b m = max (stamp (f b)) m

  foldr-filter_map : (cs : List Bytes) → foldr later 0 (filter_map f cs) ≡ foldr step 0 cs
  foldr-filter_map [] = refl
  foldr-filter_map (b ∷ cs) = elim (Option-cases (f b)) [
    | inl e ↦ rw (e, filter_map) (omega (arith, foldr-filter_map cs))
    | inr (r, e) ↦ rw (e, filter_map) (omega (arith, foldr-filter_map cs))
  ]

  step_comm : (a b : Bytes) (m : ℕ) → step a (step b m) ≡ step b (step a m)
  step_comm a b m = omega arith

-- In whatever order the candidates come back, `select_verified` finds a record or none alike, and
-- one that is as recent.
pub select_verified-Perm :
    (c : Crypto) (keyid : Str) (now skew : ℕ) (cs cs' : List Bytes)
    → Perm cs cs'
    → stamp (select_verified c cs keyid now skew) ≡ stamp (select_verified c cs' keyid now skew)
unfolding select_verified
select_verified-Perm c keyid now skew cs cs' p =
    let f = verified_candidate c keyid now skew in
    stamp-max_by_ts (filter_map f cs)
    ∙ foldr-filter_map f cs
    ∙ Perm.foldr-eq ℕ_set (step f) (step_comm f) p 0
    ∙ sym (foldr-filter_map f cs')
    ∙ sym (stamp-max_by_ts (filter_map f cs'))
