-- ===== src/Core/Record/Select.antt =====
-- `select_verified` of crates/core/src/record.rs: the newest of the records that verify.
use dotminecraft.Prelude.{
  ℕ, ◌≤◌, ◌≡◌, ◌↔◌, inl, inr, refl, ap, none, some, List, [], ◌∷◌, ◌++◌, Elem, All-Elem, Elem-All,
  Elem-filter_map, filter_map-Elem, filter_map-insert, All, filter_map, ok, arith, Option-cases,
}
use dotminecraft.Core.Text.{Str, Bytes}
use dotminecraft.Core.Body.{Record}
use dotminecraft.Core.Crypto.{Crypto}
use dotminecraft.Core.Record.{
  newest_from, max_by_ts, from_bytes, verify, verified_candidate, select_verified,
}

-- The candidate parses as a record that passes `verify`.
abbrev pub Trusted : Crypto → Str → ℕ → ℕ → Bytes → Record → Type 0
Trusted c keyid now skew b r = (from_bytes c b ≡ ok r) × (verify c r keyid now skew ≡ ok tt)

candidate_iff :
    (c : Crypto) (keyid : Str) (now skew : ℕ) (b : Bytes) (r : Record)
    → (verified_candidate c keyid now skew b ≡ some r) ↔ Trusted c keyid now skew b r
unfolding verified_candidate
candidate_iff c keyid now skew b r = ground arith

abbrev IsNewest : Record → List Record → Type 0
IsNewest r rs = All (λ x. x.body.ts ≤ r.body.ts) rs

IsNewest-mono :
    (r s : Record) (rs : List Record) → r.body.ts ≤ s.body.ts → IsNewest r rs → IsNewest s rs
IsNewest-mono r s [] h k = tt
IsNewest-mono r s (x ∷ rs) h (p, k) = (omega arith, IsNewest-mono r s rs h k)

newest_from-Elem :
    (best : Record) (rs : List Record)
    → Elem (newest_from best rs) (best ∷ rs) × IsNewest (newest_from best rs) (best ∷ rs)
unfolding newest_from
newest_from-Elem best [] = (inl refl, (omega arith, tt))
newest_from-Elem best (r ∷ rs) = ground (arith, newest_from-Elem best rs, newest_from-Elem r rs)

max_by_ts-some : (rs : List Record) (r : Record) → max_by_ts rs ≡ some r → Elem r rs × IsNewest r rs
unfolding max_by_ts
max_by_ts-some [] r h = cc
max_by_ts-some (x ∷ rs) r h = ground (arith, newest_from-Elem x rs)

max_by_ts-none : (rs : List Record) → (max_by_ts rs ≡ none) ↔ (rs ≡ [])
unfolding max_by_ts
max_by_ts-none [] = ground arith
max_by_ts-none (x ∷ rs) = ground arith

module _ (c : Crypto) (keyid : Str) (now skew : ℕ) where
  -- The record that is selected is one of the candidates, it verifies, and no candidate that
  -- verifies is newer.
  pub select_verified_sound :
      (cs : List Bytes) (r : Record)
      → select_verified c cs keyid now skew ≡ some r
      → ((b : Bytes) × Elem b cs × Trusted c keyid now skew b r)
        × ((b : Bytes) (r' : Record)
            → Elem b cs
            → Trusted c keyid now skew b r'
            → r'.body.ts ≤ r.body.ts)
  unfolding select_verified
  select_verified_sound cs r h =
      let f = verified_candidate c keyid now skew in
      let (found, newest) = max_by_ts-some (filter_map f cs) r h in
      let (b, m, e) = Elem-filter_map f cs r found in
      (
        (b, m, (candidate_iff c keyid now skew b r).0 e),
        λ b' r' m' t.
            Elem-All (λ x. x.body.ts ≤ r.body.ts) r' (filter_map f cs) newest
              (filter_map-Elem f b' r' cs ((candidate_iff c keyid now skew b' r').1 t) m'),
      )

  -- A candidate that verifies makes the selection succeed, with a record at least as new.
  pub select_verified_complete :
      (cs : List Bytes) (b : Bytes) (r : Record)
      → Elem b cs
      → Trusted c keyid now skew b r
      → (r' : Record) × (select_verified c cs keyid now skew ≡ some r') × (r.body.ts ≤ r'.body.ts)
  unfolding select_verified
  select_verified_complete cs b r m t = elim (Option-cases (select_verified c cs keyid now skew)) [
    | inl e ↦ absurd (
        rw ((max_by_ts-none _).0 e) at (
          filter_map-Elem (verified_candidate c keyid now skew) b r cs
            ((candidate_iff c keyid now skew b r).1 t) m))
    | inr (r', e) ↦ (r', e, (select_verified_sound cs r' e).1 b r m t)
  ]

  -- Candidates that do not verify change nothing, wherever they stand.
  pub select_verified_junk :
      (xs junk ys : List Bytes)
      → ((b : Bytes) (r : Record) → Elem b junk → ¬ Trusted c keyid now skew b r)
      → select_verified c (xs ++ (junk ++ ys)) keyid now skew
        ≡ select_verified c (xs ++ ys) keyid now skew
  unfolding select_verified
  select_verified_junk xs junk ys h = ap max_by_ts (
      filter_map-insert (verified_candidate c keyid now skew) xs junk ys (
        All-Elem _ junk (λ b m. elim (Option-cases (verified_candidate c keyid now skew b)) [
          | inl e ↦ e
          | inr (r, e) ↦ absurd (h b r m ((candidate_iff c keyid now skew b r).0 e))
        ])))
