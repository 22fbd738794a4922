-- ===== src/Core/Text/Utf8.antt =====
-- UTF-8, as `to_string_lossy` and `read_to_string` decode it for crates/cli/src/keystore.rs.
use dotminecraft.Prelude.{
  ℕ, ◌+◌, ◌-◌, ◌*◌, ◌%◌, ◌≡◌, refl, ap, ltb, leb, ◌==◌, Bool, true, ◌&&◌, ◌||◌, Option, none, some,
  [], ◌∷◌, ◌++◌, All, if◌then◌else◌,
}
use mathlib.Core.Option
use dotminecraft.Core.Text.{Str, Bytes}

-- `to_string_lossy`: UTF-8, with U+FFFD for each longest part that is no character. The next byte of
-- a character that has begun lies in a range.
pub data Utf8 : Type 0 where
  start : Utf8
  pending : (left : ℕ) (low : ℕ) (high : ℕ) (point : ℕ) → Utf8

abbrev replacement : ℕ
replacement = 0xFFFD

unfoldable pub first_byte : ℕ → Str × Utf8
first_byte b =
    if ltb b 0x80
    then (b ∷ [], start)
    else if leb 0xC2 b && leb b 0xDF
    then ([], pending 1 0x80 0xBF (b % 32))
    else if b == 0xE0
    then ([], pending 2 0xA0 0xBF (b % 16))
    else if b == 0xED
    then ([], pending 2 0x80 0x9F (b % 16))
    else if leb 0xE1 b && leb b 0xEF
    then ([], pending 2 0x80 0xBF (b % 16))
    else if b == 0xF0
    then ([], pending 3 0x90 0xBF (b % 8))
    else if leb 0xF1 b && leb b 0xF3
    then ([], pending 3 0x80 0xBF (b % 8))
    else if b == 0xF4
    then ([], pending 3 0x80 0x8F (b % 8))
    else (replacement ∷ [], start)

unfoldable pub next_byte : Utf8 → ℕ → Str × Utf8
unfolding first_byte
next_byte start b = first_byte b
next_byte (pending left low high point) b =
    if leb low b && leb b high
    then (if left == 1
        then ((point * 64 + b % 64) ∷ [], start)
        else ([], pending (left - 1) 0x80 0xBF (point * 64 + b % 64)))
    else (let (out, state) = first_byte b in (replacement ∷ out, state))

unfoldable pub decode : Utf8 → Bytes → Str
unfolding next_byte
decode start [] = []
decode (pending left low high point) [] = replacement ∷ []
decode state (b ∷ s) = let (out, state') = next_byte state b in out ++ decode state' s

unfoldable pub to_string_lossy : Bytes → Str
unfolding decode
to_string_lossy s = decode start s

-- Whether the byte goes on with the text, and is not the start of a broken part.
unfoldable pub goes_on : Utf8 → ℕ → Bool
goes_on start b = ltb b 0x80 || (leb 0xC2 b && leb b 0xF4)
goes_on (pending left low high point) b = leb low b && leb b high

unfoldable pub decode_strictly : Utf8 → Bytes → Option Str
unfolding next_byte goes_on
decode_strictly start [] = some []
decode_strictly (pending left low high point) [] = none
decode_strictly state (b ∷ s) =
    let (out, state') = next_byte state b in
    let more = decode_strictly state' s in
    if goes_on state b then Option.map (λ t. out ++ t) more else none

-- What `read_to_string` makes of the bytes of a file; it fails where they are not UTF-8.
unfoldable pub from_utf8 : Bytes → Option Str
unfolding decode_strictly
from_utf8 s = decode_strictly start s

abbrev pub IsAscii : Bytes → Type 0
IsAscii s = All (λ b. ltb b 0x80 ≡ true) s

pub to_string_lossy-IsAscii : (s : Bytes) → IsAscii s → to_string_lossy s ≡ s
unfolding to_string_lossy decode next_byte first_byte
to_string_lossy-IsAscii [] h = refl
to_string_lossy-IsAscii (b ∷ s) (k, h) = rw k (ap (λ t. b ∷ t) (to_string_lossy-IsAscii s h))

pub from_utf8-IsAscii : (s : Bytes) → IsAscii s → from_utf8 s ≡ some s
unfolding from_utf8 decode_strictly goes_on next_byte first_byte
from_utf8-IsAscii [] h = refl
from_utf8-IsAscii (b ∷ s) (k, h) = rw k (ap (Option.map (λ t. b ∷ t)) (from_utf8-IsAscii s h))
