-- ===== src/Tests/Homes.antt =====
-- Tests of the homes and of the owner-only writes of crates/cli/src/keystore.rs.
use dotminecraft.Prelude.{
  ℕ, ◌+◌, arith, ◌≡◌, ◌↔◌, ◌⊎◌, refl, true, false, none, some, [], ◌∷◌, ok, err, List, replicate,
  seq_eq_iff, ◌≢◌, lookup, insert, remove,
}
use dotminecraft.Core.Text.{Str, Bytes, text}
use dotminecraft.Core.Text.Utf8.{to_string_lossy, decode}
use dotminecraft.Cli.Keystore.{written, broken_after, written_file, write_result}
use dotminecraft.Cli.Keystore.Homes.{
  Env, Machine, config_dir, key_path, meta_path, profile_in, with_profile, operate, operate_in,
  saves, loads, wipes, asks, saved, loaded, exists_is,
}
use dotminecraft.Cli.Keystore.Homes.Apart.{
  Turn, ours, theirs, taking_turns, alone, taking_turns-alone,
}
use dotminecraft.Cli.Keystore.Homes.Shared.{load-save_shared}
use dotminecraft.Cli.Keystore.OwnerOnly.{
  Mode, Access, File, WasPrivate, write_owner_only, contents_of, write_owner_only-IsPrivate,
  Windows, write_owner_only_windows, write_owner_only_windows-closed,
}
use dotminecraft.Tests.Records.{owner}
use dotminecraft.Tests.Keystores.{storing, system}

homing : Unit {0}
unfolding storing to_string_lossy decode config_dir key_path meta_path profile_in with_profile
    operate operate_in taking_turns alone lookup insert remove
homing = tt

-- An ASCII text, a two-byte character, a byte that begins nothing, and a broken character.
lossy_test :
    to_string_lossy (b'a' ∷ 0xC3 ∷ 0xA9 ∷ 0xFF ∷ 0xE2 ∷ 0x82 ∷ b'b' ∷ [])
    ≡ b'a' ∷ 0xE9 ∷ 0xFFFD ∷ 0xFFFD ∷ b'b' ∷ []
unfolding homing
lossy_test = refl

abbrev total : Bytes → ℕ
total [] = 0
total (b ∷ s) = b + total s

abbrev in_home : Bytes → Bytes → Env
in_home cwd dir = record { home_var = some dir; project_dir = none; cwd = cwd }

-- A stand-in: a directory's number is what its path and the working directory add up to.
abbrev locate : Bytes → Bytes → ℕ
locate cwd dir = total cwd + total dir

abbrev blank : Machine
blank = record { keyring = []; files = [] }

apart : to_string_lossy (text "/home/b") ≢ to_string_lossy (text "/home/a")
unfolding homing
apart e =
    cc ((seq_eq_iff (to_string_lossy (text "/home/b")) (to_string_lossy (text "/home/a"))).1 e)

-- The other home makes an identity and forgets it in between.
abbrev turns : List Turn
turns =
    ours system (saves owner 26 false)
    ∷ theirs system (saves (record { signing = replicate 32 9 }) 20 false)
    ∷ ours system loads
    ∷ theirs system wipes
    ∷ ours system asks
    ∷ []

taking_turns_test :
    taking_turns locate (in_home [] (text "/home/a")) (in_home [] (text "/home/b")) turns blank
    ≡ ok (saved (text "OS keyring")) ∷ ok (loaded owner) ∷ ok (exists_is true) ∷ []
unfolding homing
taking_turns_test = refl

taking_turns-alone_example :
    taking_turns locate (in_home [] (text "/home/a")) (in_home [] (text "/home/b")) turns blank
    ≡ alone turns (profile_in locate [] (text "/home/a") blank)
unfolding homing
taking_turns-alone_example =
    taking_turns-alone locate (in_home [] (text "/home/a")) (in_home [] (text "/home/b"))
      (text "/home/a") (text "/home/b") turns blank refl refl (omega arith) apart

-- The home `id` in two directories.
abbrev here : Env
here = in_home (text "/srv/a") (text "id")

abbrev elsewhere : Env
elsewhere = in_home (text "/srv/b") (text "id")

load-save_shared_example :
    (operate_in locate elsewhere system loads
      (operate_in locate here system (saves owner 26 false) blank).0).1
    ≡ ok (loaded owner)
unfolding homing
load-save_shared_example =
    load-save_shared locate here elsewhere (text "id") (text "id") system owner 26 false blank
      (text "OS keyring") refl refl refl refl refl refl refl refl

abbrev all_access : Access
all_access = record { reads = true; writes = true; runs = true }

abbrev nothing : Access
nothing = record { reads = false; writes = false; runs = false }

abbrev umask : Mode
umask = record { user = nothing; group = nothing; others = all_access }

abbrev readable : File
readable = record {
  mode = record { user = all_access; group = all_access; others = nothing };
  contents = 4 ∷ 5 ∷ 6 ∷ [];
}

write_owner_only-IsPrivate_example :
    (WasPrivate (write_owner_only (broken_after 1) umask (7 ∷ 8 ∷ []) (some readable)).0
      ↔ WasPrivate (some readable))
    × (contents_of (write_owner_only (broken_after 1) umask (7 ∷ 8 ∷ []) (some readable)).0
        ≡ written_file (broken_after 1) (7 ∷ 8 ∷ []) (contents_of (some readable)))
    × ((write_owner_only (broken_after 1) umask (7 ∷ 8 ∷ []) (some readable)).1
        ≡ write_result (broken_after 1))
write_owner_only-IsPrivate_example =
    write_owner_only-IsPrivate (broken_after 1) umask (7 ∷ 8 ∷ []) (some readable)

abbrev refusing : Windows
refusing = record {
  username = text "me";
  icacls_runs = true;
  icacls_succeeds = false;
  icacls_restricts = false;
  removes = true;
  file_write = written;
}

write_owner_only_windows-closed_example :
    (write_owner_only_windows refusing (7 ∷ []) none
      ≡ (some (record { restricted = true; contents = 7 ∷ [] }), ok tt))
    ⊎ ((e : Str) × (write_owner_only_windows refusing (7 ∷ []) none ≡ (none, err e)))
write_owner_only_windows-closed_example =
    write_owner_only_windows-closed refusing (7 ∷ []) none (λ h. h) refl refl
