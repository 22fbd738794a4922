-- ===== src/Cli/Keystore/Homes.antt =====
-- Several homes on one machine, by crates/cli/src/keystore.rs: `config_dir`, the paths and the
-- keyring's entry of a home, and the operations on the profile that stands there. Paths are those of
-- Unix, as bytes; which directory a path names, in a working directory, is an argument, and so two
-- paths can name one directory. What the paths name does not change in between.
pub mod Apart
pub mod Shared
use dotminecraft.Prelude.{
  ℕ, suc, ◌+◌, ◌-◌, ◌*◌, ◌%◌, ltb, leb, ◌==◌, Bool, true, false, ◌&&◌, Option, none, some, List, [],
  ◌∷◌, ◌++◌, if◌then◌else◌, Result, ok, err, ◌>>=◌, Map, Eq, lookup, insert, remove, sequence_eq,
}
use dotminecraft.Core.Text.{Str, Bytes, text}
use dotminecraft.Core.Text.Utf8.{to_string_lossy}
use dotminecraft.Core.Identity.{Identity}
use dotminecraft.Cli.Keystore.{Profile, System, exists, save, load, wipe, load_keyid_len}

-- A file by the path of its directory and its name, as `Path::join` puts them together.
pub record FilePath : Type 0 where
  pub dir : Bytes
  pub file : Bytes

-- What a process has: `MC_TUNNEL_HOME`, what `ProjectDirs` gives, and its working directory.
pub record Env : Type 0 where
  pub home_var : Option Bytes
  pub project_dir : Option Bytes
  pub cwd : Bytes

-- The keyring's entries of the service by their users, and the files by the number of
-- their directory, followed by their name.
pub record Machine : Type 0 where
  pub keyring : Map Str Bytes
  pub files : Map Bytes Bytes

unfoldable pub config_dir : Env → Result Str Bytes
config_dir env = elim env.home_var [
  | some dir ↦ ok dir
  | none ↦ elim env.project_dir [
    | some dir ↦ ok dir
    | none ↦ err (text "could not determine a config directory for this OS")
  ]
]

unfoldable pub key_path : Bytes → FilePath
key_path dir = record { dir = dir; file = text "identity.key" }

unfoldable pub meta_path : Bytes → FilePath
meta_path dir = record { dir = dir; file = text "keyid_len" }

-- The user of the keyring's entry.
abbrev pub entry_user : Bytes → Str
entry_user dir = to_string_lossy dir

abbrev pub put : Bytes → Option Bytes → Map Bytes Bytes → Map Bytes Bytes
put k none m = remove k m
put k (some v) m = insert k v m

-- The functions of the module, with their arguments, and what they give.
pub data Operation : Type 0 where
  asks : Operation
  saves : Identity → ℕ → Bool → Operation
  loads : Operation
  wipes : Operation
  loads_keyid_len : Operation

pub data Answer : Type 0 where
  exists_is : Bool → Answer
  saved : Str → Answer
  loaded : Identity → Answer
  wiped : List Str → Answer
  keyid_len_is : ℕ → Answer

abbrev answering : {A : Type 0} → (A → Answer) → Result Str A → Result Str Answer
answering f (ok a) = ok (f a)
answering f (err e) = err e

unfoldable pub operate : System → Operation → Profile → Profile × Result Str Answer
operate sys asks p = (p, ok (exists_is (exists sys p)))
operate sys (saves id n force) p = let (p', r) = save sys id n force p in (p', answering saved r)
operate sys loads p = (p, answering loaded (load sys p))
operate sys wipes p = let (p', r) = wipe sys p in (p', answering wiped r)
operate sys loads_keyid_len p = (p, answering keyid_len_is (load_keyid_len sys p))

-- The number of the directory that a path names in a working directory.
module _ (locate : Bytes → Bytes → ℕ) where
  -- Where the file of a path stands.
  abbrev pub place : Bytes → FilePath → Bytes
  place cwd path = locate cwd path.dir ∷ path.file

  -- The profile in a directory, and a machine with another profile there.
  unfoldable pub profile_in : Bytes → Bytes → Machine → Profile
  unfolding key_path meta_path
  profile_in cwd dir m = record {
    keyring = lookup (entry_user dir) m.keyring;
    key_file = lookup (place cwd (key_path dir)) m.files;
    meta_file = lookup (place cwd (meta_path dir)) m.files;
  }

  unfoldable pub with_profile : Bytes → Bytes → Profile → Machine → Machine
  unfolding key_path meta_path
  with_profile cwd dir p m = record {
    keyring = put (entry_user dir) p.keyring m.keyring;
    files =
        put (place cwd (meta_path dir)) p.meta_file
          (put (place cwd (key_path dir)) p.key_file m.files);
  }

  -- An operation of a process: without a directory, each fails and does nothing.
  unfoldable pub operate_in : Env → System → Operation → Machine → Machine × Result Str Answer
  unfolding config_dir operate profile_in with_profile
  operate_in env sys op m = elim (config_dir env) [
    | err e ↦ (m, err e)
    | ok dir ↦
        let (p, r) = operate sys op (profile_in env.cwd dir m) in (with_profile env.cwd dir p m, r)
  ]
