-- ===== src/Core/Crypto.antt =====
-- What crates/core takes from other packages: SHA-256 (`sha2`), base32 without padding
-- (`data-encoding`), Ed25519 (`ed25519-dalek`) and CBOR (`ciborium`). They are parameters.
use dotminecraft.Prelude.{ℕ, ◌≡◌, Bool, true, ◌&&◌, ◌||◌, length, All, leb, Result, ok}
use dotminecraft.Core.Text.{Str, Bytes}
use dotminecraft.Core.Body.{RecordBody, Record, IsInRange}

pub record Crypto : Type 0 where
  pub sha256 : Bytes → Bytes
  pub base32 : Bytes → Str
  -- `SigningKey::from_bytes(secret).verifying_key().to_bytes()`
  pub public_key : Bytes → Bytes
  -- `VerifyingKey::from_bytes` succeeds
  pub valid_key : Bytes → Bool
  -- the signature with a secret of a message, and whether a key accepts one
  pub signature : Bytes → Bytes → Bytes
  pub accepts : Bytes → Bytes → Bytes → Bool
  pub encode_body : RecordBody → Bytes
  pub encode_record : Record → Bytes
  pub decode_record : Bytes → Result Str Record

-- The alphabet of RFC 4648 base32, which is upper case.
abbrev pub is_base32_upper : ℕ → Bool
is_base32_upper c = (leb b'A' c && leb c b'Z') || (leb b'2' c && leb c b'7')

-- The documented behaviour of those packages.
pub record IsSound (c : Crypto) : Type 0 where
  pub sha256-length : (b : Bytes) → length (c.sha256 b) ≡ 32
  pub base32-length : (b : Bytes) → length b ≡ 32 → length (c.base32 b) ≡ 52
  pub base32_alphabet : (b : Bytes) → All (λ x. is_base32_upper x ≡ true) (c.base32 b)
  pub public_key_valid : (secret : Bytes) → c.valid_key (c.public_key secret) ≡ true
  pub accepts-signature :
      (secret message : Bytes)
      → c.accepts (c.public_key secret) message (c.signature secret message) ≡ true
  pub decode-encode : (r : Record) → IsInRange r → c.decode_record (c.encode_record r) ≡ ok r
