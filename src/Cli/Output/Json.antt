-- ===== src/Cli/Output/Json.antt =====
-- The printed texts against JSON, as RFC 8259 writes it.
use dotminecraft.Core.Consts.{suffix}
use dotminecraft.Prelude.{
  inl, inr, Bool-cases, is_empty, ℕ, ◌/◌, ◌%◌, ◌≡◌, refl, ltb, ◌==◌, ◌||◌, true, false, List, [],
  ◌∷◌, ◌++◌, map, All, All-append, All-map, append_assoc, if◌then◌else◌, arith,
}
use dotminecraft.Core.Text.{Str, text}
use dotminecraft.Core.Name.{Name, to_string, is_base32_lower}
use dotminecraft.Core.Name.Bounds.{IsValid, IsBase32}
use dotminecraft.Net.Message.{DoctorInfo}
use dotminecraft.Cli.Keystore.{show_usize}
use dotminecraft.Cli.Agent.{hex_digit}
use dotminecraft.Cli.Output.{
  double_backslashes, init_json, name_json, quoted, join_commas, doctor_json,
}

pub data Json : Type 0 where
  string : Str → Json
  number : ℕ → Json
  strings : List Str → Json

-- A quote and a backslash are escaped, and so are the control characters, by their code.
abbrev pub escaped : Str → Str
escaped [] = []
escaped (c ∷ s) =
    let rest = escaped s in
    if c == 34
    then 92 ∷ 34 ∷ rest
    else if c == 92
    then 92 ∷ 92 ∷ rest
    else if ltb c 32
    then text "\\u00" ++ hex_digit (c / 16) ∷ hex_digit (c % 16) ∷ rest
    else c ∷ rest

-- Printing before a rest.
abbrev pub print_string : Str → Str → Str
print_string s rest = b'"' ∷ (escaped s ++ b'"' ∷ rest)

abbrev pub print_strings : List Str → Str → Str
print_strings [] rest = rest
print_strings (a ∷ []) rest = print_string a rest
print_strings (a ∷ b ∷ l) rest = print_string a (b',' ∷ print_strings (b ∷ l) rest)

abbrev pub print_value : Json → Str → Str
print_value (string s) rest = print_string s rest
print_value (number n) rest = show_usize n ++ rest
print_value (strings l) rest = b'[' ∷ print_strings l (b']' ∷ rest)

abbrev pub print_members : List (Str × Json) → Str → Str
print_members [] rest = rest
print_members ((k, v) ∷ []) rest = print_string k (b':' ∷ print_value v rest)
print_members ((k, v) ∷ m ∷ l) rest =
    print_string k (b':' ∷ print_value v (b',' ∷ print_members (m ∷ l) rest))

abbrev pub print_object : List (Str × Json) → Str
print_object l = b'{' ∷ print_members l (b'}' ∷ [])

-- No quote and no control character; and no backslash either.
abbrev pub IsUnquoted : Str → Type 0
IsUnquoted s = All (λ c. (c == 34 || ltb c 32) ≡ false) s

abbrev pub IsPlain : Str → Type 0
IsPlain s = All (λ c. (c == 34 || ltb c 32 || c == 92) ≡ false) s

escaped-plain : (s : Str) → IsPlain s → escaped s ≡ s
escaped-plain [] h = refl
escaped-plain (c ∷ s) (p, h) = ground (arith, escaped-plain s h)

escaped-doubled : (s : Str) → IsUnquoted s → escaped s ≡ double_backslashes s
unfolding double_backslashes
escaped-doubled [] h = refl
escaped-doubled (c ∷ s) (p, h) = ground (arith, escaped-doubled s h)

join_commas-print :
    (l : List Str) (rest : Str)
    → All IsPlain l
    → join_commas (map quoted l) ++ rest ≡ print_strings l rest
join_commas-print [] rest h = refl
join_commas-print (a ∷ []) rest (p, h) = simp (append_assoc, escaped-plain a p)
join_commas-print (a ∷ b ∷ l) rest (p, h) =
    simp (append_assoc, escaped-plain a p, join_commas-print (b ∷ l) rest h)

base32-plain : (c : ℕ) → is_base32_lower c ≡ true → (c == 34 || ltb c 32 || c == 92) ≡ false
unfolding is_base32_lower
base32-plain c h = ground arith

-- With --json, `doctor` prints the JSON of its report, where no text of it has a quote, a backslash
-- or a control character.
pub doctor_json-print :
    (info : DoctorInfo)
    → IsPlain info.peer_id
    → IsPlain info.nat_status
    → All IsPlain info.listen_addrs
    → All IsPlain info.external_addrs
    → doctor_json info
      ≡ print_object (
          (text "peer_id", string info.peer_id)
          ∷ (text "connected_peers", number info.connected_peers)
          ∷ (text "nat_status", string info.nat_status)
          ∷ (text "listen_addrs", strings info.listen_addrs)
          ∷ (text "external_addrs", strings info.external_addrs)
          ∷ [])
unfolding doctor_json
doctor_json-print info p n l e =
    let ending = print_strings info.external_addrs (text "]}") in
    rw
      (
        escaped-plain info.peer_id p,
        escaped-plain info.nat_status n,
        join_commas-print info.external_addrs (text "]}") e,
        join_commas-print info.listen_addrs (text "],\"external_addrs\":[" ++ ending) l,
      )
      refl

IsBase32-IsPlain : (s : Str) → IsBase32 s → IsPlain s
IsBase32-IsPlain s h = All-map base32-plain s h

suffix-IsPlain : IsPlain (b'.' ∷ suffix)
suffix-IsPlain = ground arith

to_string-IsPlain : (name : Name) → IsValid name → IsPlain (to_string name)
unfolding to_string
to_string-IsPlain name v =
    let keyid =
      All-append _ name.keyid (b'.' ∷ suffix) (IsBase32-IsPlain name.keyid v.keyid.charset)
        suffix-IsPlain in
    elim (Bool-cases (is_empty name.vanity)) [
      | inl bare ↦ rw (bare, to_string) keyid
      | inr label ↦
          rw (label, to_string)
            (All-append _ name.vanity (b'.' ∷ (name.keyid ++ b'.' ∷ suffix))
              (IsBase32-IsPlain name.vanity v.vanity.charset) (refl, keyid))
    ]

-- With --json, `init` and `name` print the JSON of what they give: for a valid name, and where the
-- text of the place of the key has no quote and no control character.
pub init_json-print :
    (name : Name) (keyid_len : ℕ) (location : Str)
    → IsValid name
    → IsUnquoted location
    → (init_json name keyid_len location
        ≡ print_object (
            (text "keyid", string name.keyid)
            ∷ (text "keyid_len", number keyid_len)
            ∷ (text "name", string (to_string name))
            ∷ (text "key_storage", string location)
            ∷ []))
      × (name_json name keyid_len
          ≡ print_object (
              (text "keyid", string name.keyid)
              ∷ (text "keyid_len", number keyid_len)
              ∷ (text "vanity", string name.vanity)
              ∷ (text "name", string (to_string name))
              ∷ []))
unfolding init_json name_json
init_json-print name keyid_len location v u =
    let keyid = escaped-plain name.keyid (IsBase32-IsPlain name.keyid v.keyid.charset) in
    let label = escaped-plain name.vanity (IsBase32-IsPlain name.vanity v.vanity.charset) in
    let whole = escaped-plain (to_string name) (to_string-IsPlain name v) in
    (rw (keyid, whole, escaped-doubled location u) refl, rw (keyid, label, whole) refl)
