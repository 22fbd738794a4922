-- ===== src/Cli/Keystore/Homes/Apart.antt =====
-- Homes that coexist, and homes that share an entry of the keyring: crates/cli/src/keystore.rs.
use dotminecraft.Prelude.{
  ℕ, ◌≡◌, ◌≢◌, refl, sym, ap, ◌∙◌, Option, none, some, List, [], ◌∷◌, if◌then◌else◌, Result, ok,
  Map, lookup, lookup-insert, lookup-remove, sequence_eq, seq_eq, seq_eq_iff, arith,
}
use dotminecraft.Core.Text.{Str, Bytes, text}
use dotminecraft.Core.Text.Utf8.{to_string_lossy}
use dotminecraft.Cli.Keystore.{Profile, System}
use dotminecraft.Cli.Keystore.Homes.{
  key_path, meta_path, entry_user, Machine, Env, config_dir, put, profile_in, with_profile,
  Operation, Answer, operate, operate_in,
}

lookup-put :
    (j k : Bytes) (v : Option Bytes) (m : Map Bytes Bytes)
    → lookup k (put j v m) ≡ (if seq_eq j k then v else lookup k m)
lookup-put j k none m = lookup-remove j k m
lookup-put j k (some v) m = lookup-insert j k v m

pub lookup-put_self :
    (k : Bytes) (v : Option Bytes) (m : Map Bytes Bytes) → lookup k (put k v m) ≡ v
lookup-put_self k v m = lookup-put k k v m ∙ rw ((seq_eq_iff k k).1 refl)

lookup-put_other :
    (j k : Bytes) (v : Option Bytes) (m : Map Bytes Bytes)
    → j ≢ k
    → lookup k (put j v m) ≡ lookup k m
lookup-put_other j k v m h = lookup-put j k v m ∙ ground (arith, seq_eq_iff j k)

first : Bytes → ℕ
first [] = 0
first (x ∷ s) = x

first-ne : (a b : ℕ) (s t : Bytes) → a ≢ b → a ∷ s ≢ b ∷ t
unfolding first
first-ne a b s t h e = h (ap first e)

rest : Bytes → Bytes
rest [] = []
rest (x ∷ s) = s

key-ne-meta : (a : ℕ) → a ∷ text "identity.key" ≢ a ∷ text "keyid_len"
unfolding rest
key-ne-meta a e = cc ((seq_eq_iff (text "identity.key") (text "keyid_len")).1 (ap rest e))

-- What one process after the other does: the first belongs to one home, the second to another.
pub data Turn : Type 0 where
  ours : System → Operation → Turn
  theirs : System → Operation → Turn

-- What they give on our profile alone.
unfoldable pub alone : List Turn → Profile → List (Result Str Answer)
alone [] p = []
alone (ours sys op ∷ turns) p = let (p', r) = operate sys op p in r ∷ alone turns p'
alone (theirs sys op ∷ turns) p = alone turns p

module _ (locate : Bytes → Bytes → ℕ) where
  -- The profile that was put is the profile that is there.
  profile-put :
      (cwd dir : Bytes) (p : Profile) (m : Machine)
      → profile_in locate cwd dir (with_profile locate cwd dir p m) ≡ p
  unfolding profile_in with_profile key_path meta_path
  profile-put cwd dir p m =
      let a = locate cwd dir in
      let files = put (a ∷ text "identity.key") p.key_file m.files in
      rw
        (
          lookup-put_self (entry_user dir) p.keyring m.keyring,
          lookup-put_self (a ∷ text "keyid_len") p.meta_file files,
          lookup-put_other (a ∷ text "keyid_len") (a ∷ text "identity.key") p.meta_file files
              (λ e. key-ne-meta a (sym e)),
          lookup-put_self (a ∷ text "identity.key") p.key_file m.files,
        )
        refl

  -- Another home keeps its profile.
  profile-put_other :
      (cwd dir cwd' dir' : Bytes) (p : Profile) (m : Machine)
      → locate cwd dir ≢ locate cwd' dir'
      → to_string_lossy dir ≢ to_string_lossy dir'
      → profile_in locate cwd' dir' (with_profile locate cwd dir p m)
        ≡ profile_in locate cwd' dir' m
  unfolding profile_in with_profile key_path meta_path
  profile-put_other cwd dir cwd' dir' p m ne apart =
      let a = locate cwd dir in
      let b = locate cwd' dir' in
      let files = put (a ∷ text "identity.key") p.key_file m.files in
      rw
        (
          lookup-put_other (entry_user dir) (entry_user dir') p.keyring m.keyring apart,
          lookup-put_other (a ∷ text "keyid_len") (b ∷ text "keyid_len") p.meta_file files
              (first-ne a b _ _ ne),
          lookup-put_other (a ∷ text "keyid_len") (b ∷ text "identity.key") p.meta_file files
              (first-ne a b _ _ ne),
          lookup-put_other (a ∷ text "identity.key") (b ∷ text "identity.key") p.key_file m.files
              (first-ne a b _ _ ne),
          lookup-put_other (a ∷ text "identity.key") (b ∷ text "keyid_len") p.key_file m.files
              (first-ne a b _ _ ne),
        )
        refl

  -- What our operations give, among those of the others.
  unfoldable pub taking_turns : Env → Env → List Turn → Machine → List (Result Str Answer)
  taking_turns env other [] m = []
  taking_turns env other (ours sys op ∷ turns) m =
      let (m', r) = operate_in locate env sys op m in r ∷ taking_turns env other turns m'
  taking_turns env other (theirs sys op ∷ turns) m =
      taking_turns env other turns (operate_in locate other sys op m).0

  -- Two homes coexist: whatever the processes of another home do in between, the operations of a home
  -- give what they give on its profile alone, if the paths of the homes name different directories,
  -- whichever those are, and differ as texts.
  pub taking_turns-alone :
      (env other : Env) (dir dir' : Bytes) (turns : List Turn) (m : Machine)
      → config_dir env ≡ ok dir
      → config_dir other ≡ ok dir'
      → locate other.cwd dir' ≢ locate env.cwd dir
      → to_string_lossy dir' ≢ to_string_lossy dir
      → taking_turns env other turns m ≡ alone turns (profile_in locate env.cwd dir m)
  unfolding taking_turns alone operate_in operate
  taking_turns-alone env other dir dir' [] m e e' ne apart = refl
  taking_turns-alone env other dir dir' (ours sys op ∷ turns) m e e' ne apart =
      let done = operate sys op (profile_in locate env.cwd dir m) in
      rw (e, operate_in)
        (ap (λ l. done.1 ∷ l)
          (taking_turns-alone env other dir dir' turns _ e e' ne apart
            ∙ rw (profile-put env.cwd dir done.0 m) refl))
  taking_turns-alone env other dir dir' (theirs sys op ∷ turns) m e e' ne apart =
      rw (e', operate_in)
        (taking_turns-alone env other dir dir' turns _ e e' ne apart
          ∙ ap (alone turns) (
              profile-put_other other.cwd dir' env.cwd dir
                (operate sys op (profile_in locate other.cwd dir' m)).0 m ne apart))
