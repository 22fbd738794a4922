-- ===== src/Tests/Keystores.antt =====
-- Tests of crates/cli/src/keystore.rs.
use dotminecraft.Prelude.{
  ◌≡◌, refl, true, false, none, some, [], ◌∷◌, replicate, length, ok, err, arith,
}
use dotminecraft.Core.Text.{text, trim}
use dotminecraft.Core.Identity.{Identity, name, public_bytes, from_secret_bytes, secret_bytes}
use dotminecraft.Core.Name.{Name, from_pubkey, keyid_from_pubkey, check_keyid_len, validate_vanity}
use dotminecraft.Core.Text.Utf8.{from_utf8}
use dotminecraft.Cli.Keystore.{
  Profile, System, written, not_opened, show_usize, parse_usize, keyring_load, exists, save, load,
  wipe, load_keyid_len, ensure_keyid_len, cmd_init, cmd_name,
}
use dotminecraft.Cli.Keystore.Failures.{Left, save-err}
use dotminecraft.Cli.Keystore.Identities.{Holds, load-save, save-shadowed}
use dotminecraft.Tests.Toy.{toy}
use dotminecraft.Tests.Records.{recording, owner}

unfoldable pub storing : Unit {0}
unfolding recording from_utf8 show_usize parse_usize keyring_load exists save load wipe
    load_keyid_len cmd_init cmd_name trim secret_bytes from_secret_bytes name from_pubkey
    public_bytes keyid_from_pubkey check_keyid_len validate_vanity ensure_keyid_len
storing = tt

abbrev pub system : System
system = record {
  opens_entry = true;
  gets_secret = true;
  sets_secret = true;
  deletes_credential = true;
  creates_dir = true;
  reads_files = true;
  removes_files = true;
  key_write = written;
  meta_write = written;
}

-- The keyring can be read and not written.
abbrev locked : System
locked = record system { sets_secret = false }

abbrev empty : Profile
empty = record { keyring = none; key_file = none; meta_file = none }

abbrev pub stored : Profile
stored = record { keyring = some (replicate 32 1); key_file = none; meta_file = some (text "26") }

abbrev other : Identity
other = record { signing = replicate 32 2 }

number_tests :
    (show_usize 0 ≡ text "0")
    × (show_usize 26 ≡ text "26")
    × (parse_usize (text "+26") ≡ ok 26)
    × (parse_usize (text "18446744073709551616") ≡ err (text "too large"))
unfolding storing
number_tests = (refl, refl, refl, refl)

saved : save system owner 26 false empty ≡ (stored, ok (text "OS keyring"))
unfolding storing
saved = refl

owner-length : length (secret_bytes owner) ≡ 32
unfolding storing
owner-length = refl

load-save_example : Holds system owner 26 stored
load-save_example =
    load-save system empty stored owner 26 false (text "OS keyring") saved owner-length
      (omega arith) refl (λ h. refl, λ h. cc)

loads : load system stored ≡ ok owner
unfolding storing
loads = refl

abbrev both : Profile
both = record stored { key_file = some (replicate 32 2) }

read_there : keyring_load locked stored ≡ some (replicate 32 1)
unfolding storing
read_there = refl

forced : save locked other 26 true stored ≡ (both, ok (text "identity.key"))
unfolding storing
forced = refl

save-shadowed_example : load locked both ≡ ok (from_secret_bytes (replicate 32 1))
save-shadowed_example =
    save-shadowed locked stored both other 26 (text "identity.key") (replicate 32 1) read_there refl
      forced

wiped : wipe system both ≡ (empty, ok (text "OS keyring" ∷ text "key file" ∷ []))
unfolding storing
wiped = refl

abbrev owned : Name
owned = record { vanity = []; keyid = replicate 26 b'b' }

init_done : cmd_init toy system 26 false (ok owner) empty ≡ (stored, ok owned)
unfolding storing
init_done = refl

-- The length cannot be written; the identity was stored all the same.
abbrev unmeasured : System
unmeasured = record system { meta_write = not_opened }

abbrev half : Profile
half = record { keyring = some (replicate 32 1); key_file = none; meta_file = none }

save_fails : save unmeasured owner 26 false empty ≡ (half, err (text "writing keyid_len meta"))
unfolding storing
save_fails = refl

save-err_example : Left unmeasured owner empty half
save-err_example =
    save-err unmeasured empty half owner 26 (text "writing keyid_len meta") owner-length refl
      (λ h. refl, λ h. cc) false save_fails
