-- ===== src/Tests/Records.antt =====
-- Tests of crates/core/src/record.rs.
use mathlib.Core.List.Perm
use dotminecraft.Prelude.{
  ℕ, ◌≤◌, ◌≡◌, ◌↔◌, ◌⊎◌, refl, inl, inr, true, false, some, List, [], ◌∷◌, replicate, Elem, ok, err,
  arith,
}
use dotminecraft.Core.Text.{Str, Bytes, text, len, truncate, to_ascii_lowercase}
use dotminecraft.Core.Error.{keyid_mismatch, bad_signature, stale_timestamp}
use dotminecraft.Core.Body.{RecordBody, Record, IsInRange}
use dotminecraft.Core.Identity.{Identity, public_bytes}
use dotminecraft.Core.Name.{keyid_full_from_pubkey, keyid_from_pubkey, keyid_matches_pubkey}
use dotminecraft.Core.Record.{
  sign, verify, from_bytes, to_bytes, select_verified, dht_key, authorizes_storage_key, abs_diff,
  max_by_ts, verified_candidate, signature_valid,
}
use dotminecraft.Core.Record.Verify.{
  IsSigned, Binds, IsFresh, Reason, verify-ok_iff, verify-err_iff,
}
use dotminecraft.Core.Record.Select.{Trusted, select_verified_sound}
use dotminecraft.Core.Record.Order.{stamp, select_verified-Perm}
use dotminecraft.Core.Record.Storage.{Clashes, authorizes-dht_key}
use dotminecraft.Tests.Toy.{toy, toy-IsSound}

unfoldable pub recording : Unit {0}
unfolding sign verify from_bytes to_bytes select_verified dht_key authorizes_storage_key abs_diff
    max_by_ts verified_candidate signature_valid keyid_full_from_pubkey keyid_from_pubkey
    keyid_matches_pubkey len truncate to_ascii_lowercase public_bytes
recording = tt

abbrev pub owner : Identity
owner = record { signing = replicate 32 1 }

abbrev pub at_time : ℕ → RecordBody
at_time ts = record {
  v = 1;
  pubkey = replicate 32 1;
  peer_id = text "peer";
  addrs = text "/ip4/10.0.0.1/tcp/1" ∷ [];
  vanity = [];
  ts = ts;
  ttl = 600;
}

abbrev pub rec : Record
rec = record {
  body = at_time 1000;
  sig = toy.signature owner.signing (toy.encode_body (at_time 1000));
}

abbrev pub late : Record
late = record {
  body = at_time 1100;
  sig = toy.signature owner.signing (toy.encode_body (at_time 1100));
}

abbrev pub keyid : Str
keyid = replicate 16 b'b'

verify_tests :
    (verify toy rec keyid 1200 300 ≡ ok tt)
    × (verify toy rec (text "a") 1200 300 ≡ err keyid_mismatch)
    × (verify toy rec keyid 1301 300 ≡ err (stale_timestamp 1000 1301 300))
    × (verify toy (record rec { sig = [] }) keyid 1200 300 ≡ err bad_signature)
unfolding recording
verify_tests = (refl, refl, refl, refl)

select_test :
    select_verified toy
      (to_bytes toy rec ∷ [] ∷ to_bytes toy late ∷ to_bytes toy rec ∷ [])
      keyid
      1200
      300
    ≡ some late
unfolding recording
select_test = refl

storage_tests :
    (authorizes_storage_key toy rec (dht_key toy keyid) ≡ true)
    × (authorizes_storage_key toy rec (dht_key toy (text "a")) ≡ false)
unfolding recording
storage_tests = (refl, refl)

verify-ok_iff_example :
    (verify toy rec keyid 1200 300 ≡ ok tt)
    ↔ (IsSigned toy rec × Binds toy keyid rec × IsFresh 1200 300 rec)
verify-ok_iff_example = verify-ok_iff toy toy-IsSound rec keyid 1200 300

verify-err_iff_example :
    (verify toy rec keyid 1301 300 ≡ err (stale_timestamp 1000 1301 300))
    ↔ Reason toy rec keyid 1301 300 (stale_timestamp 1000 1301 300)
verify-err_iff_example =
    verify-err_iff toy toy-IsSound rec keyid 1301 300 (stale_timestamp 1000 1301 300)

abbrev candidates : List Bytes
candidates = to_bytes toy rec ∷ [] ∷ to_bytes toy late ∷ []

selected : select_verified toy candidates keyid 1200 300 ≡ some late
unfolding recording
selected = refl

select_verified_sound_example :
    ((b : Bytes) × Elem b candidates × Trusted toy keyid 1200 300 b late)
    × ((b : Bytes) (r' : Record)
        → Elem b candidates
        → Trusted toy keyid 1200 300 b r'
        → r'.body.ts ≤ late.body.ts)
select_verified_sound_example = select_verified_sound toy keyid 1200 300 candidates late selected

rec-Trusted : Trusted toy keyid 1200 300 (to_bytes toy rec) rec
unfolding recording
rec-Trusted = (refl, refl)

empty-junk : (b : Bytes) (r : Record) → Elem b ([] ∷ []) → ¬ Trusted toy keyid 1200 300 b r
unfolding recording
empty-junk b r (inl e) t = cc (rw e at t.0)
empty-junk b r (inr m) t = m

authorizes-dht_key_example :
    IsSigned toy rec × (Binds toy keyid rec ⊎ Clashes toy toy-IsSound rec keyid)
authorizes-dht_key_example = authorizes-dht_key toy toy-IsSound rec keyid storage_tests.0

signed-IsInRange : IsInRange (sign toy (at_time 1000) owner)
unfolding recording
signed-IsInRange = record {
  version = omega arith;
  pubkey_length = refl;
  pubkey_bytes = omega arith;
  time = omega arith;
  validity = omega arith;
  sig_length = refl;
  sig_bytes = omega arith;
}

abbrev early_first : List Bytes
early_first = to_bytes toy rec ∷ to_bytes toy late ∷ []

abbrev late_first : List Bytes
late_first = to_bytes toy late ∷ to_bytes toy rec ∷ []

select_verified-Perm_example :
    stamp (select_verified toy early_first keyid 1200 300)
    ≡ stamp (select_verified toy late_first keyid 1200 300)
select_verified-Perm_example =
    select_verified-Perm toy keyid 1200 300 early_first late_first
      (Perm.swap (to_bytes toy late) (to_bytes toy rec) [])
