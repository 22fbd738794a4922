-- ===== src/Cli/Keystore.antt =====
-- crates/cli/src/keystore.rs, and what `init`, `name` and `forget` of crates/cli/src/main.rs do with
-- it: the OS keyring's entry, the key file and the file of the keyid length of one profile. Whether
-- the keyring and the file system do what they are asked is an argument. The operations on files are
-- those of the Unix build.
pub mod Decimal
pub mod Identities
pub mod Commands
pub mod Homes
pub mod OwnerOnly
pub mod Failures
use dotminecraft.Prelude.{
  ℕ, zero, suc, ◌+◌, ◌-◌, ◌*◌, ◌/◌, ◌%◌, ◌^◌, ltb, leb, ◌==◌, Bool, true, false, not, ◌&&◌, ◌||◌,
  Option, none, some, List, [], ◌∷◌, ◌++◌, take, length, is_empty, if◌then◌else◌, Result, ok, err,
  ◌>>=◌, ◌>>◌,
}
use dotminecraft.Core.Text.{Str, Bytes, text, trim}
use dotminecraft.Core.Text.Utf8.{from_utf8}
use dotminecraft.Core.Consts.{default_keyid_len, min_keyid_len, max_keyid_len}
use dotminecraft.Core.Crypto.{Crypto}
use dotminecraft.Core.Identity.{Identity, from_secret_bytes, secret_bytes, name}
use dotminecraft.Core.Name.{Name}

-- `usize::to_string`, with enough digits for 64 bits.
unfoldable pub digits : ℕ → ℕ → Str
digits zero n = []
digits (suc f) n =
    let rest = digits f (n / 10) in
    if ltb n 10 then (b'0' + n) ∷ [] else rest ++ (b'0' + n % 10) ∷ []

unfoldable pub show_usize : ℕ → Str
unfolding digits
show_usize n = digits 20 n

-- `str::parse::<usize>`: digits after an optional `+`, within 64 bits.
unfoldable pub add_digit : ℕ → ℕ → Result Str ℕ
add_digit acc d =
    if not (leb b'0' d && leb d b'9')
    then err (text "invalid digit")
    else if leb (2 ^ 64) (acc * 10 + (d - b'0'))
    then err (text "too large")
    else ok (acc * 10 + (d - b'0'))

unfoldable pub parse_digits : ℕ → Str → Result Str ℕ
unfolding add_digit
parse_digits acc [] = ok acc
parse_digits acc (d ∷ s) = add_digit acc d >>= λ acc'. parse_digits acc' s

unfoldable pub parse_usize : Str → Result Str ℕ
unfolding parse_digits
parse_usize [] = err (text "empty")
parse_usize (d ∷ s) =
    if not (d == b'+')
    then parse_digits 0 (d ∷ s)
    else if is_empty s
    then err (text "invalid digit")
    else parse_digits 0 s

-- What is stored for a profile.
pub record Profile : Type 0 where
  pub keyring : Option Bytes
  pub key_file : Option Bytes
  pub meta_file : Option Str

-- How the writing of a file ends; the file is truncated before it is written.
pub data Write : Type 0 where
  written : Write
  not_opened : Write
  broken_after : ℕ → Write

-- What the system does at the time of a call.
pub record System : Type 0 where
  -- `keyring::Entry::new`, `get_secret`, `set_secret`, `delete_credential`
  pub opens_entry : Bool
  pub gets_secret : Bool
  pub sets_secret : Bool
  pub deletes_credential : Bool
  -- `create_dir_all`, `fs::read`, `fs::remove_file`
  pub creates_dir : Bool
  pub reads_files : Bool
  pub removes_files : Bool
  pub key_write : Write
  pub meta_write : Write

abbrev pub is_some {ℓ} : {A : Type ℓ} → Option A → Bool
is_some none = false
is_some (some a) = true

abbrev pub written_file : Write → List ℕ → Option (List ℕ) → Option (List ℕ)
written_file written bytes old = some bytes
written_file not_opened bytes old = old
written_file (broken_after n) bytes old = some (take n bytes)

abbrev pub write_result : Write → Result Str (Unit {0})
write_result written = ok tt
write_result not_opened = err (text "creating")
write_result (broken_after n) = err (text "writing")

-- `.context("writing keyid_len meta")`
abbrev pub or_writing_meta : Result Str (Unit {0}) → Result Str (Unit {0})
or_writing_meta (ok u) = ok u
or_writing_meta (err e) = err (text "writing keyid_len meta")

abbrev pub of_32 : Bytes → Option Bytes
of_32 secret = if length secret == 32 then some secret else none

abbrev pub secret_in : Option Bytes → Option Bytes
secret_in none = none
secret_in (some secret) = of_32 secret

module _ (sys : System) where
  unfoldable pub keyring_load : Profile → Option Bytes
  keyring_load p =
      if not sys.opens_entry
      then none
      else if not sys.gets_secret
      then none
      else secret_in p.keyring

  unfoldable pub exists : Profile → Bool
  unfolding keyring_load
  exists p = is_some (keyring_load p) || is_some p.key_file

  -- `set_secret` on the entry, or else the key file.
  unfoldable pub store_secret : Bytes → Profile → Profile × Result Str Str
  store_secret secret p =
      if sys.opens_entry && sys.sets_secret
      then (
        record p {
          keyring = some secret;
          key_file = if sys.removes_files then none else p.key_file;
        },
        ok (text "OS keyring"),
      )
      else (
        record p { key_file = written_file sys.key_write secret p.key_file },
        write_result sys.key_write >> ok (text "identity.key"),
      )

  -- `fs::write` of the keyid length.
  unfoldable pub store_meta : ℕ → Profile × Result Str Str → Profile × Result Str Str
  unfolding show_usize
  store_meta keyid_len (p, err e) = (p, err e)
  store_meta keyid_len (p, ok location) = (
    record p { meta_file = written_file sys.meta_write (show_usize keyid_len) p.meta_file },
    or_writing_meta (write_result sys.meta_write) >> ok location,
  )

  unfoldable pub save : Identity → ℕ → Bool → Profile → Profile × Result Str Str
  unfolding exists store_secret store_meta
  save identity keyid_len force p =
      if exists p && not force
      then (p, err (text "identity already exists (use --force to overwrite)"))
      else if not sys.creates_dir
      then (p, err (text "creating"))
      else store_meta keyid_len (store_secret (secret_bytes identity) p)

  unfoldable pub load_file : Option Bytes → Result Str Identity
  load_file none = err (text "no identity found")
  load_file (some bytes) =
      if not sys.reads_files
      then err (text "reading")
      else if not (length bytes == 32)
      then err (text "key file is corrupt")
      else ok (from_secret_bytes bytes)

  unfoldable pub load : Profile → Result Str Identity
  unfolding keyring_load load_file
  load p = elim (keyring_load p) [
    | some secret ↦ ok (from_secret_bytes secret)
    | none ↦ load_file p.key_file
  ]

  -- `delete_credential` fails where there is no entry.
  unfoldable pub keyring_removed : Profile → Bool
  keyring_removed p = sys.opens_entry && sys.deletes_credential && is_some p.keyring

  unfoldable pub wipe : Profile → Profile × Result Str (List Str)
  unfolding keyring_removed
  wipe p =
      let ring = if keyring_removed p then none else p.keyring in
      let from_ring : List Str = if keyring_removed p then text "OS keyring" ∷ [] else [] in
      let meta = if sys.removes_files then none else p.meta_file in
      if not (is_some p.key_file)
      then (record p { keyring = ring; meta_file = meta }, ok from_ring)
      else if not sys.removes_files
      then (record p { keyring = ring }, err (text "removing"))
      else (
        record { keyring = ring; key_file = none; meta_file = meta },
        ok (from_ring ++ text "key file" ∷ []),
      )

  -- `read_to_string` fails if the file cannot be read, or is not UTF-8.
  unfoldable pub load_keyid_len : Profile → Result Str ℕ
  unfolding parse_usize
  load_keyid_len p = elim p.meta_file [
    | none ↦ ok default_keyid_len
    | some bytes ↦ elim (from_utf8 bytes) [
      | none ↦ ok default_keyid_len
      | some s ↦ if sys.reads_files then parse_usize (trim s) else ok default_keyid_len
    ]
  ]

-- `check_keyid_len` of main.rs.
unfoldable pub ensure_keyid_len : ℕ → Result Str (Unit {0})
ensure_keyid_len n =
    if leb min_keyid_len n && leb n max_keyid_len then ok tt else err (text "keyid_len must be in")

-- `.context("deriving name")`
abbrev pub or_deriving {ℓ} : {E : Type ℓ} → Result E Name → Result Str Name
or_deriving (ok n) = ok n
or_deriving (err e) = err (text "deriving name")

-- The length that is asked for, or else the stored one.
abbrev pub chosen_keyid_len : Option ℕ → Result Str ℕ → Result Str ℕ
chosen_keyid_len none stored = stored
chosen_keyid_len (some n) stored = ensure_keyid_len n >> ok n

module _ (c : Crypto) (sys : System) where
  unfoldable pub after_save : Identity → ℕ → Profile × Result Str Str → Profile × Result Str Name
  after_save id keyid_len (p, err e) = (p, err e)
  after_save id keyid_len (p, ok location) = (p, or_deriving (name c id [] keyid_len))

  unfoldable pub save_found : ℕ → Bool → Result Str Identity → Profile → Profile × Result Str Name
  unfolding after_save
  save_found keyid_len force (err e) p = (p, err e)
  save_found keyid_len force (ok id) p = after_save id keyid_len (save sys id keyid_len force p)

  -- `cmd_init`, from the identity that was generated or ground; the name is what it prints.
  unfoldable pub cmd_init : ℕ → Bool → Result Str Identity → Profile → Profile × Result Str Name
  unfolding ensure_keyid_len save_found
  cmd_init keyid_len force found p = elim (ensure_keyid_len keyid_len) [
    | err e ↦ (p, err e)
    | ok _ ↦
        if exists sys p && not force
        then (p, err (text "an identity already exists for this profile"))
        else save_found keyid_len force found p
  ]

  unfoldable pub cmd_name : Str → Option ℕ → Profile → Result Str Name
  unfolding ensure_keyid_len
  cmd_name vanity asked p = do
    id ← load sys p
    keyid_len ← chosen_keyid_len asked (load_keyid_len sys p)
    or_deriving (name c id vanity keyid_len)
