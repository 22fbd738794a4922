-- ===== src/Core/Text/Laws.antt =====
-- Facts about texts: lengths of ASCII texts, trimming and lower-casing what is already clean, and
-- splitting against joining.
use dotminecraft.Prelude.{
  ℕ, zero, suc, ◌-◌, ◌<◌, ◌≡◌, ◌≢◌, refl, ap, false, List, [], ◌∷◌, ◌++◌, none, some, take, length,
  All, arith, Option-cases, inl, inr,
}
use dotminecraft.Core.Text.{
  Str, len, truncate, is_whitespace, trim_end, trim, lower, to_ascii_lowercase, cons_head, split,
  split_last,
}

abbrev pub IsAscii : Str → Type 0
IsAscii s = All (λ c. c < 128) s

pub len-ascii : (s : Str) → IsAscii s → len s ≡ length s
unfolding len
len-ascii [] h = refl
len-ascii (c ∷ s) (p, h) = ground (arith, len-ascii s h)

pub truncate-ascii : (n : ℕ) (s : Str) → IsAscii s → truncate n s ≡ take n s
unfolding truncate
truncate-ascii zero [] h = refl
truncate-ascii (suc n) [] h = refl
truncate-ascii zero (c ∷ s) (p, h) = ground arith
truncate-ascii (suc n) (c ∷ s) (p, h) =
    ground (arith, truncate-ascii n s h, ap (λ k. truncate k s) (suc-sub-one n))
  where
    suc-sub-one : (k : ℕ) → suc k - 1 ≡ k
    suc-sub-one k = omega arith

-- A character that trimming and lower-casing leave alone.
abbrev pub IsClean : ℕ → Type 0
IsClean c = (is_whitespace c ≡ false) × (lower c ≡ c)

trim_end-clean : (s : Str) → All IsClean s → trim_end s ≡ s
unfolding trim_end
trim_end-clean [] h = refl
trim_end-clean (c ∷ s) ((p, _), h) = rw (p, trim_end-clean s h)

pub trim-clean : (s : Str) → All IsClean s → trim s ≡ s
unfolding trim
trim-clean [] h = refl
trim-clean (c ∷ s) (p, h) = rw (p.0) (trim_end-clean (c ∷ s) (p, h))

lower-clean : (s : Str) → All IsClean s → to_ascii_lowercase s ≡ s
unfolding to_ascii_lowercase
lower-clean [] h = refl
lower-clean (c ∷ s) ((_, q), h) = rw (lower-clean s h, q)

pub clean-clean : (s : Str) → All IsClean s → to_ascii_lowercase (trim s) ≡ s
clean-clean s h = rw (trim-clean s h) (lower-clean s h)

abbrev pub join : ℕ → List Str → Str
join sep [] = []
join sep (l ∷ []) = l
join sep (l ∷ m ∷ ls) = l ++ (sep ∷ join sep (m ∷ ls))

join-cons_head : (sep c : ℕ) (ls : List Str) → ls ≢ [] → join sep (cons_head c ls) ≡ c ∷ join sep ls
join-cons_head sep c [] h = absurd (h refl)
join-cons_head sep c (l ∷ []) h = refl
join-cons_head sep c (l ∷ m ∷ ls) h = refl

join-nil : (sep : ℕ) (ls : List Str) → ls ≢ [] → join sep ([] ∷ ls) ≡ sep ∷ join sep ls
join-nil sep [] h = absurd (h refl)
join-nil sep (l ∷ ls) h = refl

cons_head-ne-nil : (c : ℕ) (ls : List Str) → cons_head c ls ≢ []
cons_head-ne-nil c [] = cc
cons_head-ne-nil c (l ∷ ls) = cc

split-ne-nil : (sep : ℕ) (s : Str) → split sep s ≢ []
unfolding split
split-ne-nil sep [] = cc
split-ne-nil sep (c ∷ s) = ground (arith, cons_head-ne-nil c (split sep s))

-- Splitting loses nothing.
pub join-split : (sep : ℕ) (s : Str) → join sep (split sep s) ≡ s
unfolding split
join-split sep [] = refl
join-split sep (c ∷ s) = ground (
  arith,
  join-nil sep (split sep s) (split-ne-nil sep s),
  join-cons_head sep c (split sep s) (split-ne-nil sep s),
  join-split sep s,
)

-- A label holds no separator.
abbrev pub Lacks : ℕ → Str → Type 0
Lacks sep s = All (λ c. c ≢ sep) s

pub split-Lacks : (sep : ℕ) (s : Str) → Lacks sep s → split sep s ≡ s ∷ []
unfolding split
split-Lacks sep [] h = refl
split-Lacks sep (c ∷ s) (p, h) = ground (arith, split-Lacks sep s h)

pub split-append :
    (sep : ℕ) (s t : Str) → Lacks sep s → split sep (s ++ (sep ∷ t)) ≡ s ∷ split sep t
unfolding split
split-append sep [] t h = ground arith
split-append sep (c ∷ s) t (p, h) = ground (arith, split-append sep s t h)

split_last-none {ℓ} : {A : Type ℓ} (xs : List A) → split_last xs ≡ none → xs ≡ []
split_last-none [] h = refl
split_last-none (x ∷ xs) h = ground arith

pub split_last-append {ℓ} :
    {A : Type ℓ} (xs rest : List A) (l : A) → split_last xs ≡ some (l, rest) → xs ≡ rest ++ l ∷ []
split_last-append [] rest l h = cc
split_last-append (x ∷ xs) rest l h = elim (Option-cases (split_last xs)) [
  | inl e ↦ ground (arith, split_last-none xs e)
  | inr ((l', r'), e) ↦ ground (arith, split_last-append xs r' l' e)
]

pub split_last-snoc {ℓ} :
    {A : Type ℓ} (rest : List A) (l : A) → split_last (rest ++ l ∷ []) ≡ some (l, rest)
split_last-snoc [] l = refl
split_last-snoc (x ∷ rest) l = rw (split_last-snoc rest l)
