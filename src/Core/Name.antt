-- ===== src/Core/Name.antt =====
-- crates/core/src/name.rs: derivation, parsing and printing of `[vanity].[keyid].minecraft`.
pub mod Bounds
pub mod Keyid
pub mod Parse
use dotminecraft.Prelude.{
  ℕ, Bool, not, ◌&&◌, ◌||◌, List, [], ◌∷◌, ◌++◌, Option, none, some, ltb, leb, all, is_empty,
  seq_eq, if◌then◌else◌, Result, ok, err, ◌>>=◌, ◌>>◌,
}
use dotminecraft.Core.Text.{Str, Bytes, len, truncate, trim, to_ascii_lowercase, split, split_last}
use dotminecraft.Core.Consts.{min_keyid_len, max_keyid_len, suffix}
use dotminecraft.Core.Error.{
  CoreError, bad_suffix, too_many_labels, keyid_charset, vanity_too_long, vanity_charset,
  empty_label,
}
use dotminecraft.Core.Crypto.{Crypto}

unfoldable pub is_base32_lower : ℕ → Bool
is_base32_lower c = (leb b'a' c && leb c b'z') || (leb b'2' c && leb c b'7')

unfoldable pub check_keyid_len : ℕ → Result CoreError (Unit {0})
check_keyid_len n =
    if leb min_keyid_len n && leb n max_keyid_len
    then ok tt
    else err (CoreError.keyid_len n min_keyid_len max_keyid_len)

pub record Name : Type 0 where
  pub vanity : Str
  pub keyid : Str

unfoldable pub keyid_len : Name → ℕ
unfolding len
keyid_len n = len n.keyid

unfoldable pub validate_keyid : Str → Result CoreError Str
validate_keyid keyid = if is_empty keyid then err empty_label else do
  check_keyid_len (len keyid)
  if not (all is_base32_lower keyid) then err keyid_charset else ok keyid

unfoldable pub validate_vanity : Str → Result CoreError (Unit {0})
validate_vanity vanity =
    if is_empty vanity
    then ok tt
    else if ltb 8 (len vanity)
    then err (vanity_too_long (len vanity))
    else if not (all is_base32_lower vanity)
    then err vanity_charset
    else ok tt

-- The `match rest` of `Name::parse`.
unfoldable pub parse_labels : List Str → Result CoreError Name
parse_labels (keyid ∷ []) = do
  keyid' ← validate_keyid keyid
  ok (record { vanity = []; keyid = keyid' })
parse_labels (vanity ∷ keyid ∷ []) = do
  validate_vanity vanity
  keyid' ← validate_keyid keyid
  ok (record { vanity = vanity; keyid = keyid' })
parse_labels [] = err empty_label
parse_labels _ = err too_many_labels

-- The label that must be the suffix, and those before it.
unfoldable pub parse_split : Option (Str × List Str) → Result CoreError Name
parse_split none = err empty_label
parse_split (some (last, rest)) =
    if not (seq_eq last suffix) then err (bad_suffix suffix) else parse_labels rest

abbrev pub clean : Str → Str
clean input = to_ascii_lowercase (trim input)

unfoldable pub parse : Str → Result CoreError Name
unfolding parse_split
parse input = parse_split (split_last (split b'.' (clean input)))

-- `Display for Name`.
unfoldable pub to_string : Name → Str
to_string n =
    if is_empty n.vanity
    then n.keyid ++ b'.' ∷ suffix
    else n.vanity ++ (b'.' ∷ (n.keyid ++ (b'.' ∷ suffix)))

module _ (c : Crypto) where
  unfoldable pub keyid_full_from_pubkey : Bytes → Str
  keyid_full_from_pubkey pubkey = to_ascii_lowercase (c.base32 (c.sha256 pubkey))

  unfoldable pub keyid_from_pubkey : Bytes → ℕ → Str
  keyid_from_pubkey pubkey n = truncate n (keyid_full_from_pubkey pubkey)

  unfoldable pub from_pubkey : Bytes → Str → ℕ → Result CoreError Name
  from_pubkey pubkey vanity n = do
    check_keyid_len n
    validate_vanity vanity
    ok (record { vanity = vanity; keyid = keyid_from_pubkey pubkey n })

  unfoldable pub keyid_matches_pubkey : Str → Bytes → Bool
  keyid_matches_pubkey keyid pubkey = seq_eq (keyid_from_pubkey pubkey (len keyid)) keyid
