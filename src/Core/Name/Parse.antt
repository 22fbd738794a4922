-- ===== src/Core/Name/Parse.antt =====
-- Exactly which texts `Name::parse` of crates/core/src/name.rs accepts, and that it reads back
-- what `Display` writes.
use dotminecraft.Prelude.{
  ℕ, ◌≡◌, ◌≢◌, ◌↔◌, ◌⊎◌, inl, inr, refl, sym, ap, ◌∙◌, true, List, [], ◌∷◌, ◌++◌, All, All-map,
  All-append, seq_eq, seq_eq_iff, ok, arith, Option-cases, Bool-cases,
}
use dotminecraft.Core.Text.{Str, is_whitespace, lower, split, split_last}
use dotminecraft.Core.Text.Laws.{
  IsClean, clean-clean, Lacks, join, join-split, split-append, split_last-append, split_last-snoc,
}
use dotminecraft.Core.Consts.{suffix}
use dotminecraft.Core.Name.{Name, is_base32_lower, parse_labels, parse, clean, to_string}
use dotminecraft.Core.Name.Bounds.{
  IsBase32, IsValid, validate_vanity_iff, validate_keyid_sound, validate_keyid_complete,
}

-- The labels before the suffix, for a name.
abbrev AreLabels : List Str → Name → Type 0
AreLabels rest n = ((rest ≡ n.keyid ∷ []) × (n.vanity ≡ [])) ⊎ (rest ≡ n.vanity ∷ n.keyid ∷ [])

parse_labels_sound :
    (rest : List Str) (n : Name) → parse_labels rest ≡ ok n → IsValid n × AreLabels rest n
unfolding parse_labels
parse_labels_sound [] n h = cc
parse_labels_sound (k ∷ []) n h = ground (arith, validate_keyid_sound k n.keyid)
parse_labels_sound (v ∷ k ∷ []) n h =
    ground (arith, validate_keyid_sound k n.keyid, validate_vanity_iff v)
parse_labels_sound (a ∷ b ∷ d ∷ rest) n h = cc

parse_labels_complete :
    (rest : List Str) (n : Name) → IsValid n → AreLabels rest n → parse_labels rest ≡ ok n
unfolding parse_labels
parse_labels_complete rest n valid (inl (e, empty)) =
    rw e (ground (arith, validate_keyid_complete n.keyid valid.keyid))
parse_labels_complete rest n valid (inr e) =
    rw e (ground (arith, validate_keyid_complete n.keyid valid.keyid, validate_vanity_iff n.vanity))

base32-IsClean : (c : ℕ) → is_base32_lower c ≡ true → IsClean c
unfolding is_base32_lower is_whitespace lower
base32-IsClean c h = ground arith

base32-ne-dot : (c : ℕ) → is_base32_lower c ≡ true → c ≢ b'.'
unfolding is_base32_lower
base32-ne-dot c h = ground arith

-- The spellings of a name: `to_string`, and a leading dot where there is no vanity label.
abbrev pub Spells : Str → Name → Type 0
Spells s n = (s ≡ to_string n) ⊎ ((n.vanity ≡ []) × (s ≡ b'.' ∷ to_string n))

-- The text that the labels and the suffix come from.
abbrev joined : List Str → Str
joined rest = join b'.' (rest ++ suffix ∷ [])

labelled-Spells : (v k : Str) → Spells (joined (v ∷ k ∷ [])) (record { vanity = v; keyid = k })
unfolding to_string
labelled-Spells [] k = inr (refl, refl)
labelled-Spells (x ∷ v) k = inl refl

AreLabels-Spells : (rest : List Str) (n : Name) → AreLabels rest n → Spells (joined rest) n
unfolding to_string
AreLabels-Spells rest n (inl (e, empty)) = rw (e, empty) (inl refl)
AreLabels-Spells rest n (inr e) = rw e (labelled-Spells n.vanity n.keyid)

keyid-Lacks : (s : Str) → IsBase32 s → Lacks b'.' s
keyid-Lacks s = All-map base32-ne-dot s

split-suffix : (k : Str) → IsBase32 k → split b'.' (k ++ (b'.' ∷ suffix)) ≡ k ∷ suffix ∷ []
unfolding split
split-suffix k h = split-append b'.' k suffix (keyid-Lacks k h)

split-two :
    (v k : Str)
    → IsBase32 v
    → IsBase32 k
    → split b'.' (v ++ (b'.' ∷ (k ++ (b'.' ∷ suffix)))) ≡ v ∷ k ∷ suffix ∷ []
split-two v k hv hk =
    split-append b'.' v _ (keyid-Lacks v hv) ∙ ap (λ ls. v ∷ ls) (split-suffix k hk)

-- What a spelling splits into.
Spells-split :
    (v k t : Str)
    → IsBase32 v
    → IsBase32 k
    → Spells t (record { vanity = v; keyid = k })
    → (rest : List Str) × AreLabels rest (record { vanity = v; keyid = k })
      × (split b'.' t ≡ rest ++ suffix ∷ [])
unfolding to_string
Spells-split [] k t hv hk (inl e) = (k ∷ [], inl (refl, refl), rw e (split-suffix k hk))
Spells-split [] k t hv hk (inr (_, e)) = ([] ∷ k ∷ [], inr refl, rw e (split-two [] k tt hk))
Spells-split (x ∷ v) k t hv hk (inl e) =
    ((x ∷ v) ∷ k ∷ [], inr refl, rw e (split-two (x ∷ v) k hv hk))
Spells-split (x ∷ v) k t hv hk (inr (e, _)) = cc

parse_sound : (s : Str) (n : Name) → parse s ≡ ok n → IsValid n × Spells (clean s) n
unfolding parse
parse_sound s n h = elim (Option-cases (split_last (split b'.' (clean s)))) [
  | inl e ↦ cc (rw e at h)
  | inr ((l, rest), e) ↦ elim (Bool-cases (seq_eq l suffix)) [
    | inr other ↦ cc (rw other at (rw e at h))
    | inl same ↦
        let (valid, labels) = parse_labels_sound rest n (rw same at (rw e at h)) in
        let whole : clean s ≡ joined rest =
          sym (join-split b'.' (clean s))
          ∙ ap (join b'.') (split_last-append (split b'.' (clean s)) rest l e)
          ∙ ap (λ x. join b'.' (rest ++ x ∷ [])) ((seq_eq_iff l suffix).0 same) in
        (valid, rw whole (AreLabels-Spells rest n labels))
  ]
]

parse_complete : (s : Str) (n : Name) → IsValid n → Spells (clean s) n → parse s ≡ ok n
unfolding parse
parse_complete s n valid spells =
    let (rest, labels, e) =
      Spells-split n.vanity n.keyid (clean s) valid.vanity.charset valid.keyid.charset spells in
    rw (e, split_last-snoc rest suffix) (parse_labels_complete rest n valid labels)

-- `Name::parse` accepts a text as the name `n` exactly when `n` is valid (a keyid of 16 to 52
-- base32 characters, a label of at most 8) and the text, trimmed and in lower case, is `n` as it is
-- printed, or has one more dot before it where `n` has no label.
pub parse_iff : (s : Str) (n : Name) → (parse s ≡ ok n) ↔ (IsValid n × Spells (clean s) n)
parse_iff s n = (parse_sound s n, λ h. parse_complete s n h.0 h.1)

to_string-IsClean :
    (v k : Str)
    → IsBase32 v
    → IsBase32 k
    → All IsClean (to_string (record { vanity = v; keyid = k }))
unfolding to_string is_whitespace lower
to_string-IsClean [] k hv hk =
    All-append IsClean k (b'.' ∷ suffix) (All-map base32-IsClean k hk) (ground arith)
to_string-IsClean (x ∷ v) k hv hk =
    All-append IsClean (x ∷ v) (b'.' ∷ (k ++ (b'.' ∷ suffix))) (All-map base32-IsClean (x ∷ v) hv) (
      ground arith,
      All-append IsClean k (b'.' ∷ suffix) (All-map base32-IsClean k hk) (ground arith),
    )

-- A valid name is read back from what is printed for it.
pub parse-to_string : (n : Name) → IsValid n → parse (to_string n) ≡ ok n
parse-to_string n valid = parse_complete (to_string n) n valid (
    inl (
      clean-clean (to_string n)
        (to_string-IsClean n.vanity n.keyid valid.vanity.charset valid.keyid.charset)))
