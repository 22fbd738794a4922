-- ===== src/Core/Name/Bounds.antt =====
-- What the checks of crates/core/src/name.rs establish of a name and of a derived keyid.
use dotminecraft.Prelude.{ℕ, ◌≤◌, ◌<◌, ◌≡◌, ◌↔◌, true, length, All, all_iff, All-map, ok, arith}
use dotminecraft.Core.Text.{Str, len}
use dotminecraft.Core.Text.Laws.{IsAscii, len-ascii}
use dotminecraft.Core.Name.{Name, is_base32_lower, check_keyid_len, validate_keyid, validate_vanity}

abbrev pub IsBase32 : Str → Type 0
IsBase32 s = All (λ c. is_base32_lower c ≡ true) s

-- What a keyid and a vanity label must be.
pub record IsKeyid (keyid : Str) : Type 0 where
  pub at_least : 16 ≤ length keyid
  pub at_most : length keyid ≤ 52
  pub charset : IsBase32 keyid

pub record IsVanity (vanity : Str) : Type 0 where
  pub at_most : length vanity ≤ 8
  pub charset : IsBase32 vanity

pub record IsValid (n : Name) : Type 0 where
  pub vanity : IsVanity n.vanity
  pub keyid : IsKeyid n.keyid

base32_ascii : (c : ℕ) → is_base32_lower c ≡ true → c < 128
unfolding is_base32_lower
base32_ascii c h = ground arith

pub IsBase32-IsAscii : (s : Str) → IsBase32 s → IsAscii s
IsBase32-IsAscii s = All-map base32_ascii s

pub len-base32 : (s : Str) → IsBase32 s → len s ≡ length s
len-base32 s h = len-ascii s (IsBase32-IsAscii s h)

check_keyid_len-ok : (n : ℕ) → check_keyid_len n ≡ ok tt → (16 ≤ n) × (n ≤ 52)
unfolding check_keyid_len
check_keyid_len-ok n h = ground arith

pub validate_vanity_iff : (v : Str) → (validate_vanity v ≡ ok tt) ↔ IsVanity v
unfolding validate_vanity
validate_vanity_iff v = ground (arith, all_iff is_base32_lower v, len-base32 v)

pub validate_keyid_sound : (k k' : Str) → validate_keyid k ≡ ok k' → (k' ≡ k) × IsKeyid k
unfolding validate_keyid check_keyid_len
validate_keyid_sound k k' h = ground (arith, all_iff is_base32_lower k, len-base32 k)

pub validate_keyid_complete : (k : Str) → IsKeyid k → validate_keyid k ≡ ok k
unfolding validate_keyid check_keyid_len
validate_keyid_complete k h = ground (arith, all_iff is_base32_lower k, len-base32 k)
