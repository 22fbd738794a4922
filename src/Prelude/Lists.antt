-- ===== src/Prelude/Lists.antt =====
-- Lists measured by native numbers, under the library's names; a predicate on every element;
-- equality of sequences of numbers (byte strings, texts as code points).
use Prim.Native.Nat.{ℕ, zero, suc, ◌+◌, ◌≤◌, min}
use mathlib.Core.Path.{◌≡◌, refl, ap}
use mathlib.Core.Logic.{◌↔◌}
use mathlib.Core.Bool.{Bool, true, false, ◌&&◌, ◌||◌}
use mathlib.Core.Option.{Option, none, some}
use mathlib.Core.List.{List, [], ◌∷◌, ◌++◌, map}
use native.Mathlib.Omega.{arith}
use dotminecraft.Prelude.Tests.{◌==◌, ==_refl}

module _ {ℓ} {A : Type ℓ} where
  abbrev pub length : List A → ℕ
  length [] = 0
  length (x ∷ xs) = suc (length xs)

  abbrev pub take : ℕ → List A → List A
  take zero xs = []
  take (suc n) [] = []
  take (suc n) (x ∷ xs) = x ∷ take n xs

  abbrev pub drop : ℕ → List A → List A
  drop zero xs = xs
  drop (suc n) [] = []
  drop (suc n) (x ∷ xs) = drop n xs

  abbrev pub replicate : ℕ → A → List A
  replicate zero a = []
  replicate (suc n) a = a ∷ replicate n a

  abbrev pub is_empty : List A → Bool
  is_empty [] = true
  is_empty (x ∷ xs) = false

  abbrev pub all : (A → Bool) → List A → Bool
  all p [] = true
  all p (x ∷ xs) = p x && all p xs

  abbrev pub any : (A → Bool) → List A → Bool
  any p [] = false
  any p (x ∷ xs) = p x || any p xs

  pub length-append : (xs ys : List A) → length (xs ++ ys) ≡ length xs + length ys
  length-append [] ys = omega arith
  length-append (x ∷ xs) ys = omega (arith, length-append xs ys)

  pub length-replicate : (n : ℕ) (a : A) → length (replicate n a) ≡ n
  length-replicate zero a = refl
  length-replicate (suc n) a = ap suc (length-replicate n a)

  pub length-take-append : (n : ℕ) (xs ys : List A) → n ≤ length ys → length (take n (xs ++ ys)) ≡ n
  length-take-append zero xs ys h = refl
  length-take-append (suc n) [] [] h = elim h [ ]
  length-take-append (suc n) [] (y ∷ ys) h = ap suc (length-take-append n [] ys (omega arith))
  length-take-append (suc n) (x ∷ xs) ys h = ap suc (length-take-append n xs ys (omega arith))

module _ {ℓ} {A : Type ℓ} where
  pub drop-nil : (n : ℕ) → drop {A = A} n [] ≡ []
  drop-nil zero = refl
  drop-nil (suc n) = refl

  pub take-append-drop : (n : ℕ) (xs : List A) → take n xs ++ drop n xs ≡ xs
  take-append-drop zero xs = refl
  take-append-drop (suc n) [] = refl
  take-append-drop (suc n) (x ∷ xs) = rw (take-append-drop n xs)

  pub take-all : (n : ℕ) (xs : List A) → length xs ≤ n → take n xs ≡ xs
  take-all zero [] h = refl
  take-all zero (x ∷ xs) h = absurd (omega arith)
  take-all (suc n) [] h = refl
  take-all (suc n) (x ∷ xs) h = ap (λ ys. x ∷ ys) (take-all n xs (omega arith))

  pub take-extends :
      (k n : ℕ) (xs : List A) → k ≤ n → (rest : List A) × (take n xs ≡ take k xs ++ rest)
  take-extends zero n xs h = (take n xs, refl)
  take-extends (suc k) zero xs h = absurd (omega arith)
  take-extends (suc k) (suc n) [] h = ([], refl)
  take-extends (suc k) (suc n) (x ∷ xs) h =
      let (rest, e) = take-extends k n xs (omega arith) in (rest, ap (λ ys. x ∷ ys) e)

  pub take-append_self : (xs ys : List A) → take (length xs) (xs ++ ys) ≡ xs
  take-append_self [] ys = refl
  take-append_self (x ∷ xs) ys = rw (take-append_self xs ys)

  pub drop-append_self : (xs ys : List A) → drop (length xs) (xs ++ ys) ≡ ys
  drop-append_self [] ys = refl
  drop-append_self (x ∷ xs) ys = drop-append_self xs ys

  pub length-take : (n : ℕ) (xs : List A) → length (take n xs) ≡ min n (length xs)
  length-take zero xs = omega arith
  length-take (suc n) [] = omega arith
  length-take (suc n) (x ∷ xs) = omega (arith, length-take n xs)

  pub length-map {κ} : {B : Type κ} (xs : List A) (f : A → B) → length (map f xs) ≡ length xs
  length-map [] f = refl
  length-map (x ∷ xs) f = ap suc (length-map xs f)

module _ {ℓ κ} {A : Type ℓ} (P : A → Type κ) where
  abbrev pub All : List A → Type κ
  All [] = Unit
  All (x ∷ xs) = P x × All xs

  pub All-append : (xs ys : List A) → All xs → All ys → All (xs ++ ys)
  All-append [] ys h k = k
  All-append (x ∷ xs) ys (p, h) k = (p, All-append xs ys h k)

  pub All-without : (xs ys : List A) (x : A) → All (xs ++ x ∷ ys) → All (xs ++ ys) × P x
  All-without [] ys x (p, h) = (h, p)
  All-without (y ∷ xs) ys x (p, h) = let (k, q) = All-without xs ys x h in ((p, k), q)

  pub All-append_left : (xs ys : List A) → All (xs ++ ys) → All xs
  All-append_left [] ys h = tt
  All-append_left (x ∷ xs) ys (p, h) = (p, All-append_left xs ys h)

  pub All-take : (n : ℕ) (xs : List A) → All xs → All (take n xs)
  All-take zero xs h = tt
  All-take (suc n) [] h = tt
  All-take (suc n) (x ∷ xs) (p, h) = (p, All-take n xs h)

module _ {ℓ κ μ} {A : Type ℓ} {P : A → Type κ} {Q : A → Type μ} where
  pub All-map : (f : (a : A) → P a → Q a) (xs : List A) → All P xs → All Q xs
  All-map f [] h = tt
  All-map f (x ∷ xs) (p, h) = (f x p, All-map f xs h)

pub all_iff {ℓ} :
    {A : Type ℓ} (p : A → Bool) (xs : List A) → (all p xs ≡ true) ↔ All (λ x. p x ≡ true) xs
all_iff p [] = (λ h. tt, λ h. refl)
all_iff p (x ∷ xs) = ground (arith, all_iff p xs)

module _ {ℓ κ} {A : Type ℓ} {B : Type κ} where
  abbrev pub filter_map : (A → Option B) → List A → List B
  filter_map f [] = []
  filter_map f (x ∷ xs) =
      let rest = filter_map f xs in elim (f x) [ none ↦ rest | some b ↦ b ∷ rest ]

-- `==` on byte strings and texts.
abbrev pub seq_eq : List ℕ → List ℕ → Bool
seq_eq [] [] = true
seq_eq (x ∷ xs) (y ∷ ys) = (x == y) && seq_eq xs ys
seq_eq _ _ = false

pub seq_eq_refl : (xs : List ℕ) → seq_eq xs xs ≡ true
seq_eq_refl [] = refl
seq_eq_refl (x ∷ xs) = rw (==_refl x, seq_eq_refl xs)

seq_eq_sound : (xs ys : List ℕ) → seq_eq xs ys ≡ true → xs ≡ ys
seq_eq_sound [] [] h = refl
seq_eq_sound [] (y ∷ ys) h = cc
seq_eq_sound (x ∷ xs) [] h = cc
seq_eq_sound (x ∷ xs) (y ∷ ys) h = ground (arith, seq_eq_sound xs ys)

pub seq_eq_iff : (xs ys : List ℕ) → (seq_eq xs ys ≡ true) ↔ (xs ≡ ys)
seq_eq_iff xs ys = (seq_eq_sound xs ys, λ e. rw e (seq_eq_refl ys))
