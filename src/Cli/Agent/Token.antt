-- ===== src/Cli/Agent/Token.antt =====
-- `token_ok` and `random_token` of crates/cli/src/agent.rs.
use dotminecraft.Prelude.{
  ℕ, zero, suc, ◌/◌, ◌%◌, ◌^◌, ◌<◌, ◌≡◌, ◌↔◌, refl, true, [], ◌∷◌, length, All, arith, ap,
}
use dotminecraft.Core.Text.{Bytes}
use dotminecraft.Cli.Agent.{hex_digit, token_from, bit_xor, bit_or, fold_differences, token_ok}

halve : (w a : ℕ) → a < 2 ^ suc w → a / 2 < 2 ^ w
halve w a h = omega arith

bit_xor-zero : (w a b : ℕ) → a < 2 ^ w → b < 2 ^ w → (bit_xor w a b ≡ 0) ↔ (a ≡ b)
unfolding bit_xor
bit_xor-zero zero a b h k = ground arith
bit_xor-zero (suc w) a b h k =
    ground (arith, bit_xor-zero w (a / 2) (b / 2) (halve w a h) (halve w b k))

bit_or-zero : (w a b : ℕ) → a < 2 ^ w → b < 2 ^ w → (bit_or w a b ≡ 0) ↔ ((a ≡ 0) × (b ≡ 0))
unfolding bit_or
bit_or-zero zero a b h k = ground arith
bit_or-zero (suc w) a b h k =
    ground (arith, bit_or-zero w (a / 2) (b / 2) (halve w a h) (halve w b k))

bit_xor-lt : (w a b : ℕ) → bit_xor w a b < 2 ^ w
unfolding bit_xor
bit_xor-lt zero a b = omega arith
bit_xor-lt (suc w) a b = ground (arith, bit_xor-lt w (a / 2) (b / 2))

bit_or-lt : (w a b : ℕ) → bit_or w a b < 2 ^ w
unfolding bit_or
bit_or-lt zero a b = omega arith
bit_or-lt (suc w) a b = ground (arith, bit_or-lt w (a / 2) (b / 2))

-- Each is below 256.
abbrev pub AreBytes : Bytes → Type 0
AreBytes xs = All (λ b. b < 256) xs

fold_differences-zero :
    (acc : ℕ) (xs ys : Bytes)
    → acc < 256
    → AreBytes xs
    → AreBytes ys
    → length xs ≡ length ys
    → (fold_differences acc xs ys ≡ 0) ↔ ((acc ≡ 0) × (xs ≡ ys))
unfolding fold_differences
fold_differences-zero acc [] [] h p q e = ground arith
fold_differences-zero acc [] (y ∷ ys) h p q e = absurd (omega arith)
fold_differences-zero acc (x ∷ xs) [] h p q e = absurd (omega arith)
fold_differences-zero acc (x ∷ xs) (y ∷ ys) h (p, ps) (q, qs) e =
    let d = bit_xor 8 x y in
    let d_lt : d < 256 = bit_xor-lt 8 x y in
    let or_lt : bit_or 8 acc d < 256 = bit_or-lt 8 acc d in
    let same : length xs ≡ length ys = omega arith in
    ground (
      arith,
      fold_differences-zero (bit_or 8 acc d) xs ys or_lt ps qs same,
      bit_or-zero 8 acc d h d_lt,
      bit_xor-zero 8 x y p q,
    )

-- The comparison of tokens, which does not stop at the first difference, is equality of byte
-- strings.
pub token_ok_iff :
    (expected given : Bytes)
    → AreBytes expected
    → AreBytes given
    → (token_ok expected given ≡ true) ↔ (expected ≡ given)
unfolding token_ok
token_ok_iff expected given h k = ground (
  arith,
  fold_differences-zero 0 expected given (omega arith) h k,
  λ (e : expected ≡ given). ap length e,
)

hex_digit_injective : (a b : ℕ) → a < 16 → b < 16 → hex_digit a ≡ hex_digit b → a ≡ b
unfolding hex_digit
hex_digit_injective a b h k e = ground arith

-- A control token keeps all the random bits: different byte strings give different tokens.
pub token_from_injective :
    (xs ys : Bytes) → AreBytes xs → AreBytes ys → token_from xs ≡ token_from ys → xs ≡ ys
unfolding token_from
token_from_injective [] [] h k e = refl
token_from_injective [] (y ∷ ys) h k e = cc
token_from_injective (x ∷ xs) [] h k e = cc
token_from_injective (x ∷ xs) (y ∷ ys) (h, hs) (k, ks) e = ground (
  arith,
  hex_digit_injective (x / 16) (y / 16) (omega arith) (omega arith),
  hex_digit_injective (x % 16) (y % 16) (omega arith) (omega arith),
  token_from_injective xs ys hs ks,
)
