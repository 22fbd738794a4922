-- ===== src/Prelude/Members.antt =====
-- Membership in a list, with its place, and what `filter_map` keeps.
use mathlib.Core.Path.{◌≡◌, refl, sym, ◌∙◌, ap}
use mathlib.Core.Logic.{◌↔◌, ◌⊎◌, inl, inr}
use mathlib.Core.Option.{Option, none, some}
use mathlib.Core.List.{List, [], ◌∷◌, ◌++◌}
use native.Mathlib.Omega.{arith}
use dotminecraft.Prelude.Tests.{Option-cases}
use dotminecraft.Prelude.Lists.{All, filter_map}

module _ {A : Type 0} where
  abbrev pub Elem : A → List A → Type 0
  Elem a [] = ⊥
  Elem a (x ∷ xs) = (a ≡ x) ⊎ Elem a xs

  pub Elem-append_left : (a : A) (xs ys : List A) → Elem a xs → Elem a (xs ++ ys)
  Elem-append_left a [] ys h = absurd h
  Elem-append_left a (x ∷ xs) ys (inl e) = inl e
  Elem-append_left a (x ∷ xs) ys (inr h) = inr (Elem-append_left a xs ys h)

  pub Elem-append_right : (a : A) (xs ys : List A) → Elem a ys → Elem a (xs ++ ys)
  Elem-append_right a [] ys h = h
  Elem-append_right a (x ∷ xs) ys h = inr (Elem-append_right a xs ys h)

  pub Elem-without :
      (a b : A) (xs ys : List A) → Elem a (xs ++ b ∷ ys) → (a ≡ b) ⊎ Elem a (xs ++ ys)
  Elem-without a b [] ys (inl e) = inl e
  Elem-without a b [] ys (inr h) = inr h
  Elem-without a b (x ∷ xs) ys (inl e) = inr (inl e)
  Elem-without a b (x ∷ xs) ys (inr h) = elim (Elem-without a b xs ys h) [
    | inl e ↦ inl e
    | inr k ↦ inr (inr k)
  ]

  pub All-Elem {κ} : (P : A → Type κ) (xs : List A) → ((a : A) → Elem a xs → P a) → All P xs
  All-Elem P [] h = tt
  All-Elem P (x ∷ xs) h = (h x (inl refl), All-Elem P xs (λ a m. h a (inr m)))

  pub Elem-All {κ} : (P : A → Type κ) (a : A) (xs : List A) → All P xs → Elem a xs → P a
  Elem-All P a [] h m = absurd m
  Elem-All P a (x ∷ xs) (p, h) (inl e) = rw e p
  Elem-All P a (x ∷ xs) (p, h) (inr m) = Elem-All P a xs h m

module _ {A B : Type 0} (f : A → Option B) where
  pub Elem-filter_map :
      (xs : List A) (b : B) → Elem b (filter_map f xs) → (a : A) × Elem a xs × (f a ≡ some b)
  Elem-filter_map [] b m = absurd m
  Elem-filter_map (x ∷ xs) b m = elim (Option-cases (f x)) [
    | inl e ↦ let (a, h, q) = Elem-filter_map xs b (rw (e, filter_map) at m) in (a, inr h, q)
    | inr (y, e) ↦
        let r : (b ≡ y) ⊎ Elem b (filter_map f xs) = rw (e, filter_map) at m in
        elim r [
          | inl p ↦ (x, inl refl, e ∙ ap some (sym p))
          | inr h ↦ let (a, k, q) = Elem-filter_map xs b h in (a, inr k, q)
        ]
  ]

  pub filter_map-Elem :
      (a : A) (b : B) (xs : List A) → f a ≡ some b → Elem a xs → Elem b (filter_map f xs)
  filter_map-Elem a b [] e h = absurd h
  filter_map-Elem a b (x ∷ xs) e (inl p) = rw (ap f (sym p) ∙ e, filter_map) (inl refl)
  filter_map-Elem a b (x ∷ xs) e (inr h) = ground (arith, filter_map-Elem a b xs e h)

  filter_map-none :
      (junk ys : List A) → All (λ x. f x ≡ none) junk → filter_map f (junk ++ ys) ≡ filter_map f ys
  filter_map-none [] ys h = refl
  filter_map-none (x ∷ junk) ys (p, h) = rw (p, filter_map) (filter_map-none junk ys h)

  pub filter_map-insert :
      (xs junk ys : List A)
      → All (λ x. f x ≡ none) junk
      → filter_map f (xs ++ (junk ++ ys)) ≡ filter_map f (xs ++ ys)
  filter_map-insert [] junk ys h = filter_map-none junk ys h
  filter_map-insert (x ∷ xs) junk ys h = ground (arith, filter_map-insert xs junk ys h)

  pub filter_map-nil_iff : (xs : List A) → (filter_map f xs ≡ []) ↔ All (λ x. f x ≡ none) xs
  filter_map-nil_iff [] = ground arith
  filter_map-nil_iff (x ∷ xs) = ground (arith, filter_map-nil_iff xs)
