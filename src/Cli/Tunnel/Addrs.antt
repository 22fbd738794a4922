-- ===== src/Cli/Tunnel/Addrs.antt =====
-- `advertised_addrs` of crates/cli/src/tunnel.rs.
use dotminecraft.Prelude.{
  ◌≡◌, ◌≢◌, ◌↔◌, ◌⊎◌, inl, inr, refl, true, false, List, [], ◌∷◌, ◌++◌, All, All-map, Elem, seq_eq,
  seq_eq_iff, Bool-cases, arith,
}
use dotminecraft.Core.Text.{Str}
use dotminecraft.Net.Message.{DoctorInfo}
use dotminecraft.Cli.Tunnel.{
  str_leb, place, sort, dedup_after, dedup, is_dialable, filter_dialable, advertised_addrs,
}

str_leb_total : (a b : Str) → str_leb a b ≡ false → str_leb b a ≡ true
unfolding str_leb
str_leb_total [] b h = cc
str_leb_total (x ∷ a) [] h = refl
str_leb_total (x ∷ a) (y ∷ b) h = ground (arith, str_leb_total a b)

str_leb_trans : (a b c : Str) → str_leb a b ≡ true → str_leb b c ≡ true → str_leb a c ≡ true
unfolding str_leb
str_leb_trans [] b c h k = refl
str_leb_trans (x ∷ a) [] c h k = cc
str_leb_trans (x ∷ a) (y ∷ b) [] h k = cc
str_leb_trans (x ∷ a) (y ∷ b) (z ∷ c) h k = ground (arith, str_leb_trans a b c)

str_leb_antisym : (a b : Str) → str_leb a b ≡ true → str_leb b a ≡ true → a ≡ b
unfolding str_leb
str_leb_antisym [] [] h k = refl
str_leb_antisym [] (y ∷ b) h k = cc
str_leb_antisym (x ∷ a) [] h k = cc
str_leb_antisym (x ∷ a) (y ∷ b) h k = ground (arith, str_leb_antisym a b)

abbrev IsSorted : List Str → Type 0
IsSorted [] = Unit
IsSorted (a ∷ addrs) = All (λ b. str_leb a b ≡ true) addrs × IsSorted addrs

-- The one stands before the other in the order of texts, and differs from it.
abbrev Before : Str → Str → Type 0
Before a b = (str_leb a b ≡ true) × (a ≢ b)

-- Each text stands before all that follow it.
abbrev pub IsAscending : List Str → Type 0
IsAscending [] = Unit
IsAscending (a ∷ addrs) = All (Before a) addrs × IsAscending addrs

Elem-place : (x a : Str) (bs : List Str) → Elem x (place a bs) ↔ ((x ≡ a) ⊎ Elem x bs)
unfolding place
Elem-place x a [] = ground arith
Elem-place x a (b ∷ bs) = ground (arith, Elem-place x a bs)

Elem-sort : (x : Str) (addrs : List Str) → Elem x (sort addrs) ↔ Elem x addrs
unfolding sort
Elem-sort x [] = ground arith
Elem-sort x (a ∷ addrs) = ground (arith, Elem-sort x addrs, Elem-place x a (sort addrs))

All-place : (P : Str → Type 0) (a : Str) (bs : List Str) → P a → All P bs → All P (place a bs)
unfolding place
All-place P a [] p h = (p, tt)
All-place P a (b ∷ bs) p (q, h) = ground (arith, All-place P a bs p h)

place-IsSorted : (a : Str) (bs : List Str) → IsSorted bs → IsSorted (place a bs)
unfolding place
place-IsSorted a [] h = (tt, tt)
place-IsSorted a (b ∷ bs) (below, h) = elim (Bool-cases (str_leb a b)) [
  | inl le ↦ rw le ((le, All-map (λ x k. str_leb_trans a b x le k) bs below), (below, h))
  | inr gt ↦ rw gt (All-place _ a bs (str_leb_total a b gt) below, place-IsSorted a bs h)
]

sort-IsSorted : (addrs : List Str) → IsSorted (sort addrs)
unfolding sort
sort-IsSorted [] = tt
sort-IsSorted (a ∷ addrs) = place-IsSorted a (sort addrs) (sort-IsSorted addrs)

Elem-dedup_after :
    (x a : Str) (bs : List Str) → ((x ≡ a) ⊎ Elem x (dedup_after a bs)) ↔ ((x ≡ a) ⊎ Elem x bs)
unfolding dedup_after
Elem-dedup_after x a [] = ground arith
Elem-dedup_after x a (b ∷ bs) =
    ground (arith, Elem-dedup_after x a bs, Elem-dedup_after x b bs, seq_eq_iff a b)

Before-trans : (a b x : Str) → Before a b → Before b x → Before a x
Before-trans a b x (le, ne) (le', ne') =
    (str_leb_trans a b x le le', λ e. ne (str_leb_antisym a b le (rw e le')))

dedup_after-IsAscending :
    (a : Str) (bs : List Str)
    → All (λ b. str_leb a b ≡ true) bs
    → IsSorted bs
    → IsAscending (a ∷ dedup_after a bs)
unfolding dedup_after
dedup_after-IsAscending a [] below h = (tt, tt)
dedup_after-IsAscending a (b ∷ bs) (le, below) (below', h) = elim (Bool-cases (seq_eq a b)) [
  | inl same ↦ rw same (dedup_after-IsAscending a bs below h)
  | inr other ↦
      let before : Before a b = (le, λ e. cc (other, (seq_eq_iff a b).1 e)) in
      let (first, next) = dedup_after-IsAscending b bs below' h in
      rw other (
        (before, All-map (λ x k. Before-trans a b x before k) (dedup_after b bs) first),
        (first, next),
      )
]

dedup-IsAscending : (addrs : List Str) → IsSorted addrs → IsAscending (dedup addrs)
unfolding dedup
dedup-IsAscending [] h = tt
dedup-IsAscending (a ∷ addrs) (below, h) = dedup_after-IsAscending a addrs below h

Elem-dedup : (x : Str) (addrs : List Str) → Elem x (dedup addrs) ↔ Elem x addrs
unfolding dedup
Elem-dedup x [] = ground arith
Elem-dedup x (a ∷ addrs) = Elem-dedup_after x a addrs

Elem-filter_dialable :
    (x : Str) (addrs : List Str)
    → Elem x (filter_dialable addrs) ↔ (Elem x addrs × (is_dialable x ≡ true))
unfolding filter_dialable
Elem-filter_dialable x [] = ground arith
Elem-filter_dialable x (a ∷ addrs) = ground (arith, Elem-filter_dialable x addrs)

-- The advertised addresses stand in strictly ascending order, so none stands twice, and are exactly
-- the listening and the external addresses that contain neither `/0.0.0.0/` nor `/::/`.
pub advertised_addrs_exact :
    (info : DoctorInfo)
    → IsAscending (advertised_addrs info)
      × ((a : Str)
          → Elem a (advertised_addrs info)
            ↔ (Elem a (info.listen_addrs ++ info.external_addrs) × (is_dialable a ≡ true)))
unfolding advertised_addrs
advertised_addrs_exact info =
    let all = info.listen_addrs ++ info.external_addrs in
    (
      dedup-IsAscending _ (sort-IsSorted (filter_dialable all)),
      λ a. ground (
        arith,
        Elem-dedup a (sort (filter_dialable all)),
        Elem-sort a (filter_dialable all),
        Elem-filter_dialable a all,
      ),
    )
