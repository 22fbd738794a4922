-- ===== src/Tests/Names.antt =====
-- Tests of crates/core/src/name.rs.
use dotminecraft.Prelude.{◌≡◌, ◌↔◌, refl, [], replicate, ok, err, arith}
use dotminecraft.Core.Text.{Bytes, text, len, truncate, trim, to_ascii_lowercase, split}
use dotminecraft.Core.Error.{
  CoreError, bad_suffix, too_many_labels, keyid_charset, vanity_too_long, empty_label,
}
use dotminecraft.Core.Name.{
  Name, is_base32_lower, validate_keyid, validate_vanity, check_keyid_len, parse_labels, parse,
  to_string, clean, from_pubkey, keyid_full_from_pubkey, keyid_from_pubkey, keyid_matches_pubkey,
}
use dotminecraft.Core.Name.Bounds.{IsValid}
use dotminecraft.Core.Name.Parse.{Spells, parse_iff}

naming : Unit {0}
unfolding parse parse_labels validate_keyid validate_vanity check_keyid_len is_base32_lower len
    truncate trim to_ascii_lowercase split to_string from_pubkey keyid_full_from_pubkey
    keyid_from_pubkey keyid_matches_pubkey
naming = tt

abbrev home : Name
home = record { vanity = text "home"; keyid = text "abcdefgh23456723" }

abbrev plain : Name
plain = record { vanity = []; keyid = text "abcdefgh23456723" }

parse_tests :
    (parse (text " HOME.abcdefgh23456723.Minecraft ") ≡ ok home)
    × (parse (text "abcdefgh23456723.minecraft") ≡ ok plain)
    × (parse (text ".abcdefgh23456723.minecraft") ≡ ok plain)
    × (parse (text "abcdefgh23456723.craft") ≡ err (bad_suffix (text "minecraft")))
    × (parse (text "abcdef0189234567.minecraft") ≡ err keyid_charset)
    × (parse (text "a.b.abcdefgh23456789.minecraft") ≡ err too_many_labels)
    × (parse (text "toolongvanity.abcdefgh23456789.minecraft") ≡ err (vanity_too_long 13))
    × (parse (text "abcdefgh2345672.minecraft") ≡ err (CoreError.keyid_len 15 16 52))
    × (parse (text "minecraft") ≡ err empty_label)
unfolding naming
parse_tests = (refl, refl, refl, refl, refl, refl, refl, refl, refl)

home-IsValid : IsValid home
unfolding naming
home-IsValid = ground arith

parse_iff_example :
    (parse (text "HOME.abcdefgh23456723.minecraft") ≡ ok home)
    ↔ (IsValid home × Spells (clean (text "HOME.abcdefgh23456723.minecraft")) home)
parse_iff_example = parse_iff (text "HOME.abcdefgh23456723.minecraft") home

abbrev key : Bytes
key = replicate 32 1

abbrev derived : Name
derived = record { vanity = text "home"; keyid = replicate 16 b'b' }
