-- ===== src/Core/Consts.antt =====
-- The constants of crates/core/src/lib.rs and crates/core/src/record.rs.
use dotminecraft.Prelude.{ℕ, ◌*◌}
use dotminecraft.Core.Text.{Str, text}

abbrev pub default_keyid_len : ℕ
default_keyid_len = 26

abbrev pub min_keyid_len : ℕ
min_keyid_len = 16

abbrev pub max_keyid_len : ℕ
max_keyid_len = 52

abbrev pub suffix : Str
suffix = text "minecraft"

abbrev pub dht_key_prefix : Str
dht_key_prefix = text "mc-tunnel:v1:"

abbrev pub record_version : ℕ
record_version = 1

abbrev pub max_record_bytes : ℕ
max_record_bytes = 8 * 1024
