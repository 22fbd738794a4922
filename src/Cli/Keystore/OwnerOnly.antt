-- ===== src/Cli/Keystore/OwnerOnly.antt =====
-- `write_owner_only` of crates/cli/src/keystore.rs, for Unix and for Windows, call by call on the
-- file. Modes are those of one file; who owns it, and other holders of it, are left out.
use dotminecraft.Prelude.{
  ◌≡◌, ◌↔◌, ◌⊎◌, inl, inr, Bool-cases, take, drop, drop-nil, length, refl, sym, ap, ◌∙◌, Bool, true,
  false, not, ◌&&◌, ◌||◌, ◌++◌, append-nil, Option, none, some, [], Result, ok, err, Option-cases,
  is_empty, if◌then◌else◌,
}
use mathlib.Core.Option
use dotminecraft.Core.Text.{Str, Bytes, text}
use dotminecraft.Cli.Keystore.{Write, written, not_opened, broken_after, written_file, write_result}

-- What one class of users may do, and a mode by its classes.
pub record Access : Type 0 where
  pub reads : Bool
  pub writes : Bool
  pub runs : Bool

pub record Mode : Type 0 where
  pub user : Access
  pub group : Access
  pub others : Access

abbrev no_access : Access
no_access = record { reads = false; writes = false; runs = false }

abbrev mode_0600 : Mode
mode_0600 = record {
  user = record { reads = true; writes = true; runs = false };
  group = no_access;
  others = no_access;
}

-- The mode of a new file: what is asked for, without what the umask takes away.
abbrev without : Access → Access → Access
without mask a = record {
  reads = a.reads && not mask.reads;
  writes = a.writes && not mask.writes;
  runs = a.runs && not mask.runs;
}

unfoldable pub masked : Mode → Mode → Mode
masked umask m = record {
  user = without umask.user m.user;
  group = without umask.group m.group;
  others = without umask.others m.others;
}

pub record File : Type 0 where
  pub mode : Mode
  pub contents : Bytes

-- The Unix build. `open` with `create`, `truncate` and a mode, which counts for a new file alone.
unfoldable pub open_owner_only : Mode → Option File → File
unfolding masked
open_owner_only umask none = record { mode = masked umask mode_0600; contents = [] }
open_owner_only umask (some file) = record file { contents = [] }

-- Bytes that are written at the start of the file, over those that stand there.
abbrev over : Bytes → Bytes → Bytes
over bytes old = bytes ++ drop (length bytes) old

unfoldable pub write_all : Write → Bytes → File → File
write_all written bytes file = record file { contents = over bytes file.contents }
write_all not_opened bytes file = file
write_all (broken_after n) bytes file = record file { contents = over (take n bytes) file.contents }

unfoldable pub write_owner_only :
    Write → Mode → Bytes → Option File → Option File × Result Str (Unit {0})
unfolding open_owner_only write_all
write_owner_only not_opened umask bytes old = (old, err (text "creating"))
write_owner_only w umask bytes old =
    (some (write_all w bytes (open_owner_only umask old)), write_result w)

-- The Windows build. A file is restricted once its inherited rights are stripped.
pub record WindowsFile : Type 0 where
  pub restricted : Bool
  pub contents : Bytes

pub record Windows : Type 0 where
  -- `USERNAME`, empty if it is not set
  pub username : Str
  -- `icacls` could be run, its exit status, and whether it took the inherited rights off the file
  pub icacls_runs : Bool
  pub icacls_succeeds : Bool
  pub icacls_restricts : Bool
  pub removes : Bool
  pub file_write : Write

-- `fs::write`
unfoldable pub fs_write : Write → Bytes → Option WindowsFile → Option WindowsFile
fs_write not_opened bytes old = old
fs_write written bytes none = some (record { restricted = false; contents = bytes })
fs_write written bytes (some file) = some (record file { contents = bytes })
fs_write (broken_after n) bytes none = some (record { restricted = false; contents = take n bytes })
fs_write (broken_after n) bytes (some file) = some (record file { contents = take n bytes })

abbrev pub hardens : Windows → Bool
hardens env = not (is_empty env.username) && (env.icacls_runs && env.icacls_succeeds)

-- What `icacls` does to the file, whatever its exit status.
abbrev restrict : Windows → WindowsFile → WindowsFile
restrict env file = record file {
  restricted =
      file.restricted || (not (is_empty env.username) && (env.icacls_runs && env.icacls_restricts));
}

abbrev unless_removed : Bool → Option WindowsFile → Option WindowsFile
unless_removed removes file = if removes then none else file

unfoldable pub harden : Windows → Option WindowsFile → Option WindowsFile × Result Str (Unit {0})
harden env file = if hardens env then (Option.map (restrict env) file, ok tt) else (
  unless_removed env.removes (Option.map (restrict env) file),
  err (text "could not restrict permissions"),
)

unfoldable pub write_owner_only_windows :
    Windows → Bytes → Option WindowsFile → Option WindowsFile × Result Str (Unit {0})
unfolding fs_write harden
write_owner_only_windows env bytes old = elim env.file_write [
  | written ↦ harden env (fs_write written bytes old)
  | not_opened ↦ (fs_write not_opened bytes old, err (text "writing"))
  | broken_after n ↦ (fs_write (broken_after n) bytes old, err (text "writing"))
]

-- Group and others have no access.
pub record IsPrivate (file : File) : Type 0 where
  pub group : file.mode.group ≡ no_access
  pub others : file.mode.others ≡ no_access

-- What was there, if anything, was private.
abbrev pub WasPrivate : Option File → Type 0
WasPrivate none = Unit {0}
WasPrivate (some file) = IsPrivate file

abbrev pub contents_of : Option File → Option Bytes
contents_of = Option.map (λ file. file.contents)

same-mode : (a b : File) → a.mode ≡ b.mode → IsPrivate a → IsPrivate b
same-mode a b e h = record {
  group = ap (λ m. m.group) (sym e) ∙ h.group;
  others = ap (λ m. m.others) (sym e) ∙ h.others;
}

write_all-mode :
    (w : Write) (bytes : Bytes) (file : File) → (write_all w bytes file).mode ≡ file.mode
unfolding write_all
write_all-mode written bytes file = refl
write_all-mode not_opened bytes file = refl
write_all-mode (broken_after n) bytes file = refl

opened-IsPrivate :
    (w : Write) (umask : Mode) (bytes : Bytes) (old : Option File)
    → IsPrivate (write_all w bytes (open_owner_only umask old)) ↔ WasPrivate old
unfolding open_owner_only masked
opened-IsPrivate w umask bytes none = (
  λ h. tt,
  λ h.
      same-mode (open_owner_only umask none) _ (sym (write_all-mode w bytes _))
        (record { group = refl; others = refl }),
)
opened-IsPrivate w umask bytes (some file) = (
  λ h. same-mode _ file (write_all-mode w bytes _) h,
  λ h. same-mode file _ (sym (write_all-mode w bytes (record file { contents = [] }))) h,
)

over-nil : (bytes : Bytes) → over bytes [] ≡ bytes
over-nil bytes = ap (λ bs. bytes ++ bs) (drop-nil (length bytes)) ∙ append-nil bytes

-- A file that was truncated holds what was written, and no more.
opened-contents :
    (umask : Mode) (bytes : Bytes) (old : Option File)
    → over bytes (open_owner_only umask old).contents ≡ bytes
unfolding open_owner_only
opened-contents umask bytes none = over-nil bytes
opened-contents umask bytes (some file) = over-nil bytes

-- On Unix the file that is left, however the write ends, is without access for group and others
-- exactly if there was no file or the one that was there was so already: an existing file keeps its
-- mode, whatever the umask. If the file could be opened it then holds the bytes that were written and
-- none of the old ones; otherwise it is as it was. The answer is that of the open and the write.
pub write_owner_only-IsPrivate :
    (w : Write) (umask : Mode) (bytes : Bytes) (old : Option File)
    → (WasPrivate (write_owner_only w umask bytes old).0 ↔ WasPrivate old)
      × (contents_of (write_owner_only w umask bytes old).0
          ≡ written_file w bytes (contents_of old))
      × ((write_owner_only w umask bytes old).1 ≡ write_result w)
unfolding write_owner_only write_all
write_owner_only-IsPrivate not_opened umask bytes old = ((λ h. h, λ h. h), refl, refl)
write_owner_only-IsPrivate written umask bytes old =
    (opened-IsPrivate written umask bytes old, ap some (opened-contents umask bytes old), refl)
write_owner_only-IsPrivate (broken_after n) umask bytes old = (
  opened-IsPrivate (broken_after n) umask bytes old,
  ap some (opened-contents umask (take n bytes) old),
  refl,
)

hardens-ends :
    (env : Windows)
    → hardens env ≡ true
    → (env.icacls_succeeds ≡ true → env.icacls_restricts ≡ true)
    → (not (is_empty env.username) && (env.icacls_runs && env.icacls_restricts)) ≡ true
hardens-ends env hard honest = elim (Bool-cases (is_empty env.username)) [
  | inl e ↦ cc (rw e at hard)
  | inr named ↦ elim (Bool-cases env.icacls_runs) [
    | inr e ↦ cc (rw named at hard, e)
    | inl runs ↦ rw (named, runs) (honest (rw (named, runs) at hard))
  ]
]

restrict-hard :
    (env : Windows) (bytes : Bytes) (before : Bool)
    → hardens env ≡ true
    → (env.icacls_succeeds ≡ true → env.icacls_restricts ≡ true)
    → restrict env (record { restricted = before; contents = bytes })
      ≡ record { restricted = true; contents = bytes }
restrict-hard env bytes true hard honest = refl
restrict-hard env bytes false hard honest = rw (hardens-ends env hard honest) refl

-- On Windows a write that the file system completes is all or nothing, if files can be removed and
-- `icacls` has restricted the file whenever its exit status says so: either it succeeds and the bytes
-- stand in a file that is restricted, or it fails and no file is left.
pub write_owner_only_windows-closed :
    (env : Windows) (bytes : Bytes) (old : Option WindowsFile)
    → (env.icacls_succeeds ≡ true → env.icacls_restricts ≡ true)
    → env.file_write ≡ written
    → env.removes ≡ true
    → (write_owner_only_windows env bytes old
        ≡ (some (record { restricted = true; contents = bytes }), ok tt))
      ⊎ ((e : Str) × (write_owner_only_windows env bytes old ≡ (none, err e)))
unfolding write_owner_only_windows harden fs_write
write_owner_only_windows-closed env bytes old honest w removes = elim (Bool-cases (hardens env)) [
  | inl hard ↦ elim (Option-cases old) [
    | inl e ↦ inl (
        rw (w, write_owner_only_windows, hard, e)
          (ap (λ f. (some f, ok tt)) (restrict-hard env bytes false hard honest)))
    | inr (file, e) ↦ inl (
        rw (w, write_owner_only_windows, hard, e)
          (ap (λ f. (some f, ok tt)) (restrict-hard env bytes file.restricted hard honest)))
  ]
  | inr soft ↦
      inr (
        text "could not restrict permissions",
        rw (w, write_owner_only_windows, soft, removes) refl,
      )
]
