-- ===== src/Cli/Keystore/Decimal.antt =====
-- The text of a keyid length, as crates/cli/src/keystore.rs writes it and reads it back.
use dotminecraft.Prelude.{
  ℕ, zero, suc, ◌+◌, ◌*◌, ◌/◌, ◌%◌, ◌^◌, ◌<◌, ◌≤◌, ◌≡◌, ◌≢◌, refl, ap, ◌∙◌, [], ◌∷◌, ◌++◌, All,
  All-append, All-map, ltb, true, some, Bool-cases, inl, inr, ok, Result-cases, ◌>>=◌, arith,
}
use dotminecraft.Core.Text.{Str, trim, is_whitespace, lower}
use dotminecraft.Core.Text.Utf8.{from_utf8, from_utf8-IsAscii}
use dotminecraft.Core.Text.Laws.{IsClean, trim-clean}
use dotminecraft.Cli.Keystore.{digits, show_usize, add_digit, parse_digits, parse_usize}

abbrev IsDigit : ℕ → Type 0
IsDigit d = (b'0' ≤ d) × (d ≤ b'9')

IsDigit-IsClean : (d : ℕ) → IsDigit d → IsClean d
unfolding is_whitespace lower
IsDigit-IsClean d h = (ground arith, ground arith)

add_digit-digit :
    (acc k : ℕ) → k < 10 → acc * 10 + k < 2 ^ 64 → add_digit acc (b'0' + k) ≡ ok (acc * 10 + k)
unfolding add_digit
add_digit-digit acc k h fits = ground arith

parse_digits-snoc :
    (acc d : ℕ) (s : Str)
    → parse_digits acc (s ++ d ∷ []) ≡ (parse_digits acc s >>= λ n. add_digit n d)
unfolding parse_digits
parse_digits-snoc acc d [] = elim (Result-cases (add_digit acc d)) [
  | inl (n, e) ↦ rw e refl
  | inr (x, e) ↦ rw e refl
]
parse_digits-snoc acc d (x ∷ s) = elim (Result-cases (add_digit acc x)) [
  | inl (n, e) ↦ rw e (parse_digits-snoc n d s)
  | inr (x', e) ↦ rw e refl
]

IsDigit-lt : (d : ℕ) → IsDigit d → ltb d 0x80 ≡ true
IsDigit-lt d h = ground arith

digits-IsDigit : (f n : ℕ) → All IsDigit (digits f n)
unfolding digits
digits-IsDigit zero n = tt
digits-IsDigit (suc f) n = elim (Bool-cases (ltb n 10)) [
  | inl small ↦ rw small ((omega arith, ground arith), tt)
  | inr large ↦ rw large (
      All-append _ (digits f (n / 10)) _ (digits-IsDigit f (n / 10))
        ((omega arith, omega arith), tt))
]

parse_digits-digits : (f n : ℕ) → n < 10 ^ f → n < 2 ^ 64 → parse_digits 0 (digits f n) ≡ ok n
unfolding digits parse_digits
parse_digits-digits zero n h fits = ground arith
parse_digits-digits (suc f) n h fits = elim (Bool-cases (ltb n 10)) [
  | inl small ↦ rw (small, add_digit-digit 0 n (ground arith) (omega arith)) (ap ok (omega arith))
  | inr large ↦
      rw
        (
          large,
          parse_digits-snoc 0 (b'0' + n % 10) (digits f (n / 10)),
          parse_digits-digits f (n / 10) (omega arith) (omega arith),
        )
        (add_digit-digit (n / 10) (n % 10) (omega arith) (omega arith) ∙ ap ok (omega arith))
]

snoc-IsNonempty : (s : Str) (d : ℕ) → s ++ d ∷ [] ≢ []
snoc-IsNonempty [] d e = cc
snoc-IsNonempty (x ∷ s) d e = cc

digits-IsNonempty : (f n : ℕ) → digits (suc f) n ≢ []
unfolding digits
digits-IsNonempty f n e = elim (Bool-cases (ltb n 10)) [
  | inl small ↦ cc (rw small at e)
  | inr large ↦ snoc-IsNonempty (digits f (n / 10)) (b'0' + n % 10) (rw large at e)
]

-- A keyid length that fits its type is read back as it was written, also after `trim`.
pub parse_usize-show_usize : (n : ℕ) → n < 2 ^ 64 → parse_usize (trim (show_usize n)) ≡ ok n
unfolding parse_usize show_usize
parse_usize-show_usize n h =
    let clean = All-map IsDigit-IsClean (digits 20 n) (digits-IsDigit 20 n) in
    rw (trim-clean (digits 20 n) clean) (
      plain (digits 20 n) n (digits-IsDigit 20 n) (digits-IsNonempty 19 n)
        (parse_digits-digits 20 n (omega arith) h))
  where
    plain :
        (s : Str) (n : ℕ) → All IsDigit s → s ≢ [] → parse_digits 0 s ≡ ok n → parse_usize s ≡ ok n
    plain [] n ds ne e = absurd (ne refl)
    plain (d ∷ s) n (p, ds) ne e = ground arith

pub from_utf8-show_usize : (n : ℕ) → from_utf8 (show_usize n) ≡ some (show_usize n)
unfolding show_usize
from_utf8-show_usize n =
    from_utf8-IsAscii (digits 20 n)
      (All-map (λ d h. IsDigit-lt d h) (digits 20 n) (digits-IsDigit 20 n))
