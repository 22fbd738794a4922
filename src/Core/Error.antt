-- ===== src/Core/Error.antt =====
-- crates/core/src/error.rs: why a name or a record was refused.
use dotminecraft.Prelude.{ℕ}
use dotminecraft.Core.Text.{Str}

pub data CoreError : Type 0 where
  bad_suffix : Str → CoreError
  too_many_labels : CoreError
  keyid_len : (len min max : ℕ) → CoreError
  keyid_charset : CoreError
  vanity_too_long : ℕ → CoreError
  vanity_charset : CoreError
  empty_label : CoreError

pub data VerifyError : Type 0 where
  too_large : ℕ → VerifyError
  malformed : Str → VerifyError
  unsupported_version : ℕ → VerifyError
  bad_signature : VerifyError
  keyid_mismatch : VerifyError
  stale_timestamp : (ts now skew : ℕ) → VerifyError
