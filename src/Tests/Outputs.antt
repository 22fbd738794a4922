-- ===== src/Tests/Outputs.antt =====
-- Tests of what `--json` prints in crates/cli/src/main.rs and crates/cli/src/tunnel.rs.
use dotminecraft.Prelude.{◌≡◌, refl, [], ◌∷◌}
use dotminecraft.Core.Text.{Str, text}
use dotminecraft.Core.Name.{Name, is_base32_lower, to_string}
use dotminecraft.Net.Message.{DoctorInfo}
use dotminecraft.Cli.Keystore.{show_usize, digits}
use dotminecraft.Cli.Output.{double_backslashes, init_json, name_json, doctor_json}

printing : Unit {0}
unfolding is_base32_lower to_string show_usize digits double_backslashes init_json name_json
    doctor_json
printing = tt

abbrev name : Name
name = record { vanity = text "home"; keyid = text "abcdefgh23456723" }

abbrev location : Str
location = text "C:\\keys"

init_json_test :
    init_json name 16 location
    ≡ text
        "{\"keyid\":\"abcdefgh23456723\",\"keyid_len\":16,\"name\":\"home.abcdefgh23456723.minecraft\",\"key_storage\":\"C:\\\\keys\"}"
unfolding printing
init_json_test = refl

abbrev report : DoctorInfo
report = record {
  peer_id = text "12D3";
  listen_addrs = text "/ip4/10.0.0.1/tcp/1" ∷ text "/ip4/10.0.0.2/tcp/1" ∷ [];
  external_addrs = [];
  connected_peers = 3;
  nat_status = text "Unknown";
}

doctor_json_test :
    doctor_json report
    ≡ text
        "{\"peer_id\":\"12D3\",\"connected_peers\":3,\"nat_status\":\"Unknown\",\"listen_addrs\":[\"/ip4/10.0.0.1/tcp/1\",\"/ip4/10.0.0.2/tcp/1\"],\"external_addrs\":[]}"
unfolding printing
doctor_json_test = refl
