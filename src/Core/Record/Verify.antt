-- ===== src/Core/Record/Verify.antt =====
-- What `Record::verify` and `Record::signature_valid` of crates/core/src/record.rs decide.
use dotminecraft.Prelude.{
  ℕ, ◌+◌, ◌≤◌, ◌≡◌, ◌≢◌, ◌↔◌, true, false, ◌++◌, ltb, length, ok, err, arith,
}
use dotminecraft.Core.Text.{Str, Bytes}
use dotminecraft.Core.Consts.{max_record_bytes}
use dotminecraft.Core.Error.{
  VerifyError, too_large, malformed, unsupported_version, bad_signature, keyid_mismatch,
  stale_timestamp,
}
use dotminecraft.Core.Body.{RecordBody, Record, IsInRange}
use dotminecraft.Core.Crypto.{Crypto, IsSound}
use dotminecraft.Core.Identity.{Identity, public_bytes}
use dotminecraft.Core.Name.{keyid_full_from_pubkey}
use dotminecraft.Core.Name.Keyid.{keyid_matches_iff}
use dotminecraft.Core.Record.{abs_diff, sign, to_bytes, from_bytes, verify, signature_valid}

-- The key of the record begins the keyid that was asked for.
abbrev pub Binds : Crypto → Str → Record → Type 0
Binds c keyid r = (rest : Str) × (keyid_full_from_pubkey c r.body.pubkey ≡ keyid ++ rest)

abbrev pub IsFresh : ℕ → ℕ → Record → Type 0
IsFresh now max_skew r = (r.body.ts ≤ now + max_skew) × (now ≤ r.body.ts + max_skew)

abbrev pub IsSigned : Crypto → Record → Type 0
IsSigned c r =
    (r.body.v ≡ 1)
    × (c.valid_key r.body.pubkey ≡ true)
    × (c.accepts r.body.pubkey (c.encode_body r.body) r.sig ≡ true)

pub signature_valid_iff : (c : Crypto) (r : Record) → (signature_valid c r ≡ true) ↔ IsSigned c r
unfolding signature_valid
signature_valid_iff c r = ground arith

-- Why a record is refused, the first failing check first.
abbrev pub Reason : Crypto → Record → Str → ℕ → ℕ → VerifyError → Type 0
Reason c r keyid now skew (unsupported_version v) = (v ≡ r.body.v) × (r.body.v ≢ 1)
Reason c r keyid now skew bad_signature = (r.body.v ≡ 1) × (¬ IsSigned c r)
Reason c r keyid now skew keyid_mismatch = IsSigned c r × (¬ Binds c keyid r)
Reason c r keyid now skew (stale_timestamp ts now' skew') =
    IsSigned c r
    × Binds c keyid r
    × (¬ IsFresh now skew r)
    × (ts ≡ r.body.ts)
    × (now' ≡ now)
    × (skew' ≡ skew)
Reason c r keyid now skew (too_large n) = ⊥
Reason c r keyid now skew (malformed e) = ⊥

skew_le_iff :
    (now skew ts : ℕ)
    → (ltb skew (abs_diff now ts) ≡ false) ↔ ((ts ≤ now + skew) × (now ≤ ts + skew))
unfolding abs_diff
skew_le_iff now skew ts = ground arith

module _ (c : Crypto) (sound : IsSound c) (r : Record) (keyid : Str) (now skew : ℕ) where
  -- A record passes exactly when its version is the current one, its key is a key and accepts the
  -- signature on the body, the keyid begins the full keyid of that key, and its time is within the
  -- skew of now.
  pub verify-ok_iff :
      (verify c r keyid now skew ≡ ok tt) ↔ (IsSigned c r × Binds c keyid r × IsFresh now skew r)
  unfolding verify
  verify-ok_iff =
      ground (arith, keyid_matches_iff c sound keyid r.body.pubkey, skew_le_iff now skew r.body.ts)

  -- The error tells the first check that failed, and each error comes only from its check.
  pub verify-err_iff :
      (e : VerifyError) → (verify c r keyid now skew ≡ err e) ↔ Reason c r keyid now skew e
  unfolding verify
  verify-err_iff (too_large n) = ground arith
  verify-err_iff (malformed e) = ground arith
  verify-err_iff e =
      ground (arith, keyid_matches_iff c sound keyid r.body.pubkey, skew_le_iff now skew r.body.ts)

module _ (c : Crypto) (sound : IsSound c) (body : RecordBody) (id : Identity) where
  -- What a key signs under its own public key is signed.
  pub sign-IsSigned : body.v ≡ 1 → body.pubkey ≡ public_bytes c id → IsSigned c (sign c body id)
  unfolding sign public_bytes
  sign-IsSigned v pk = (
    v,
    simp pk (sound.public_key_valid id.signing),
    simp pk (sound.accepts-signature id.signing (c.encode_body body)),
  )

-- A record within the ranges of its types and the size limit is read back from its bytes.
pub from_bytes-to_bytes :
    (c : Crypto) (r : Record)
    → IsSound c
    → IsInRange r
    → length (to_bytes c r) ≤ max_record_bytes
    → from_bytes c (to_bytes c r) ≡ ok r
unfolding from_bytes to_bytes
from_bytes-to_bytes c r sound range fits = ground (arith, sound.decode-encode r range)

-- No text above the limit is parsed.
pub from_bytes-length :
    (c : Crypto) (b : Bytes) (r : Record) → from_bytes c b ≡ ok r → length b ≤ max_record_bytes
unfolding from_bytes
from_bytes-length c b r h = ground arith
