-- ===== src/Cli/Output.antt =====
-- What `--json` prints: `init` and `name` of crates/cli/src/main.rs and `doctor` of
-- crates/cli/src/tunnel.rs, without the newline.
pub mod Json
use dotminecraft.Prelude.{ℕ, ◌==◌, List, [], ◌∷◌, ◌++◌, map, if◌then◌else◌}
use dotminecraft.Core.Text.{Str, text}
use dotminecraft.Core.Name.{Name, to_string}
use dotminecraft.Net.Message.{DoctorInfo}
use dotminecraft.Cli.Keystore.{show_usize}

-- `replace('\\', "\\\\")`
unfoldable pub double_backslashes : Str → Str
double_backslashes [] = []
double_backslashes (c ∷ s) =
    let rest = double_backslashes s in if c == 92 then 92 ∷ 92 ∷ rest else c ∷ rest

unfoldable pub init_json : Name → ℕ → Str → Str
unfolding double_backslashes
init_json name keyid_len location =
    text "{\"keyid\":\""
    ++ (name.keyid
        ++ (text "\",\"keyid_len\":"
            ++ (show_usize keyid_len
                ++ (text ",\"name\":\""
                    ++ (to_string name
                        ++ (text "\",\"key_storage\":\""
                            ++ (double_backslashes location ++ text "\"}")))))))

unfoldable pub name_json : Name → ℕ → Str
name_json name keyid_len =
    text "{\"keyid\":\""
    ++ (name.keyid
        ++ (text "\",\"keyid_len\":"
            ++ (show_usize keyid_len
                ++ (text ",\"vanity\":\""
                    ++ (name.vanity
                        ++ (text "\",\"name\":\"" ++ (to_string name ++ text "\"}")))))))

-- `format!("\"{a}\"")` and `join(",")`
abbrev quoted : Str → Str
quoted a = b'"' ∷ (a ++ b'"' ∷ [])

abbrev join_commas : List Str → Str
join_commas [] = []
join_commas (a ∷ []) = a
join_commas (a ∷ b ∷ l) = a ++ b',' ∷ join_commas (b ∷ l)

unfoldable pub doctor_json : DoctorInfo → Str
doctor_json info =
    text "{\"peer_id\":\""
    ++ (info.peer_id
        ++ (text "\",\"connected_peers\":"
            ++ (show_usize info.connected_peers
                ++ (text ",\"nat_status\":\""
                    ++ (info.nat_status
                        ++ (text "\",\"listen_addrs\":["
                            ++ (join_commas (map quoted info.listen_addrs)
                                ++ (text "],\"external_addrs\":["
                                    ++ (join_commas (map quoted info.external_addrs)
                                        ++ text "]}")))))))))
