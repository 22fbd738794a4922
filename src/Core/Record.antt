-- ===== src/Core/Record.antt =====
-- crates/core/src/record.rs: signing, verification and selection of the records that the DHT holds.
pub mod Verify
pub mod Select
pub mod Order
pub mod Storage
use dotminecraft.Prelude.{
  ℕ, zero, suc, ◌-◌, Bool, false, not, ◌||◌, List, [], ◌∷◌, ◌++◌, Option, none, some, ltb, leb,
  ◌==◌, length, seq_eq, filter_map, if◌then◌else◌, Result, ok, err,
}
use dotminecraft.Core.Text.{Str, Bytes, len, truncate}
use dotminecraft.Core.Consts.{record_version, max_record_bytes, dht_key_prefix}
use dotminecraft.Core.Error.{
  VerifyError, too_large, malformed, unsupported_version, bad_signature, keyid_mismatch,
  stale_timestamp,
}
use dotminecraft.Core.Body.{RecordBody, Record}
use dotminecraft.Core.Crypto.{Crypto}
use dotminecraft.Core.Identity.{Identity}
use dotminecraft.Core.Name.{keyid_full_from_pubkey, keyid_matches_pubkey}

-- `u64::abs_diff`.
unfoldable pub abs_diff : ℕ → ℕ → ℕ
abs_diff a b = if leb b a then a - b else b - a

-- `map_err(|e| VerifyError::Malformed(e.to_string()))`
abbrev or_malformed : Result Str Record → Result VerifyError Record
or_malformed (ok r) = ok r
or_malformed (err e) = err (malformed e)

-- `Iterator::max_by_key` with the key `body.ts`: of equal keys the last one is taken.
unfoldable pub newest_from : Record → List Record → Record
newest_from best [] = best
newest_from best (r ∷ rs) = newest_from (if ltb r.body.ts best.body.ts then best else r) rs

unfoldable pub max_by_ts : List Record → Option Record
unfolding newest_from
max_by_ts [] = none
max_by_ts (r ∷ rs) = some (newest_from r rs)

-- `Result::ok` followed by `?`, for a check that returns nothing.
abbrev pub keep_if_ok : Result VerifyError (Unit {0}) → Record → Option Record
keep_if_ok (ok _) r = some r
keep_if_ok (err e) r = none

module _ (c : Crypto) where
  unfoldable pub canonical_bytes : RecordBody → Bytes
  canonical_bytes body = c.encode_body body

  unfoldable pub sign : RecordBody → Identity → Record
  unfolding canonical_bytes
  sign body key = record { body = body; sig = c.signature key.signing (canonical_bytes body) }

  unfoldable pub to_bytes : Record → Bytes
  to_bytes r = c.encode_record r

  unfoldable pub from_bytes : Bytes → Result VerifyError Record
  from_bytes bytes =
      if ltb max_record_bytes (length bytes)
      then err (too_large max_record_bytes)
      else or_malformed (c.decode_record bytes)

  unfoldable pub verify : Record → Str → ℕ → ℕ → Result VerifyError (Unit {0})
  unfolding canonical_bytes
  verify r expected_keyid now max_skew =
      if not (r.body.v == record_version)
      then err (unsupported_version r.body.v)
      else if not (c.valid_key r.body.pubkey)
      then err bad_signature
      else if not (c.accepts r.body.pubkey (canonical_bytes r.body) r.sig)
      then err bad_signature
      else if not (keyid_matches_pubkey c expected_keyid r.body.pubkey)
      then err keyid_mismatch
      else if ltb max_skew (abs_diff now r.body.ts)
      then err (stale_timestamp r.body.ts now max_skew)
      else ok tt

  unfoldable pub signature_valid : Record → Bool
  unfolding canonical_bytes
  signature_valid r =
      if not (r.body.v == record_version)
      then false
      else if not (c.valid_key r.body.pubkey)
      then false
      else c.accepts r.body.pubkey (canonical_bytes r.body) r.sig

  unfoldable pub dht_key : Str → Bytes
  dht_key keyid = c.sha256 (dht_key_prefix ++ keyid)

  -- `(from..).take(count).any(|l| &dht_key(&full[..l]) == storage_key)`
  unfoldable pub any_prefix : Str → Bytes → ℕ → ℕ → Bool
  any_prefix full storage_key from zero = false
  any_prefix full storage_key from (suc count) =
      seq_eq (dht_key (truncate from full)) storage_key
      || any_prefix full storage_key (suc from) count

  unfoldable pub authorizes_storage_key : Record → Bytes → Bool
  unfolding any_prefix
  authorizes_storage_key r storage_key =
      if not (signature_valid r)
      then false
      else let full = keyid_full_from_pubkey c r.body.pubkey in
        any_prefix full storage_key 1 (len full)

  -- The closure of `select_verified`.
  unfoldable pub verified_candidate : Str → ℕ → ℕ → Bytes → Option Record
  verified_candidate expected_keyid now max_skew bytes = elim (from_bytes bytes) [
    | err e ↦ none
    | ok rec ↦ keep_if_ok (verify rec expected_keyid now max_skew) rec
  ]

  unfoldable pub select_verified : List Bytes → Str → ℕ → ℕ → Option Record
  select_verified candidates expected_keyid now max_skew =
      max_by_ts (filter_map (verified_candidate expected_keyid now max_skew) candidates)
