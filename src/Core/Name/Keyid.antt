-- ===== src/Core/Name/Keyid.antt =====
-- The keyid that is derived from a key: its shape, and what `keyid_matches_pubkey` and
-- `Name::from_pubkey` of crates/core/src/name.rs decide.
use dotminecraft.Prelude.{
  ℕ, ◌≤◌, ◌≡◌, ◌↔◌, sym, ap, ◌∙◌, true, [], ◌∷◌, ◌++◌, length, take, drop, All, All-take,
  seq_eq_iff, length-take, length-map, take-append-drop, take-append_self, All-append_left, ok,
  arith,
}
use dotminecraft.Core.Text.{Str, Bytes, len, lower, to_ascii_lowercase}
use dotminecraft.Core.Text.Laws.{truncate-ascii}
use dotminecraft.Core.Crypto.{Crypto, IsSound, is_base32_upper}
use dotminecraft.Core.Name.{
  Name, is_base32_lower, check_keyid_len, from_pubkey, keyid_matches_pubkey, keyid_full_from_pubkey,
  keyid_from_pubkey,
}
use dotminecraft.Core.Name.Bounds.{
  IsBase32, IsValid, IsBase32-IsAscii, len-base32, validate_vanity_iff,
}

lower-base32 : (x : ℕ) → is_base32_upper x ≡ true → is_base32_lower (lower x) ≡ true
unfolding lower is_base32_lower
lower-base32 x h = ground arith

lowercase-IsBase32 :
    (s : Str) → All (λ x. is_base32_upper x ≡ true) s → IsBase32 (to_ascii_lowercase s)
unfolding to_ascii_lowercase
lowercase-IsBase32 [] h = tt
lowercase-IsBase32 (x ∷ s) (p, h) = (lower-base32 x p, lowercase-IsBase32 s h)

module _ (c : Crypto) (sound : IsSound c) where
  pub full-IsBase32 : (pk : Bytes) → IsBase32 (keyid_full_from_pubkey c pk)
  unfolding keyid_full_from_pubkey
  full-IsBase32 pk = lowercase-IsBase32 _ (sound.base32_alphabet (c.sha256 pk))

  pub length-full : (pk : Bytes) → length (keyid_full_from_pubkey c pk) ≡ 52
  unfolding keyid_full_from_pubkey to_ascii_lowercase
  length-full pk =
      length-map (c.base32 (c.sha256 pk)) lower
      ∙ sound.base32-length (c.sha256 pk) (sound.sha256-length pk)

  pub keyid-take :
      (pk : Bytes) (n : ℕ) → keyid_from_pubkey c pk n ≡ take n (keyid_full_from_pubkey c pk)
  unfolding keyid_from_pubkey
  keyid-take pk n = truncate-ascii n _ (IsBase32-IsAscii _ (full-IsBase32 pk))

  pub keyid-IsBase32 : (pk : Bytes) (n : ℕ) → IsBase32 (keyid_from_pubkey c pk n)
  keyid-IsBase32 pk n = rw keyid-take (All-take _ n _ (full-IsBase32 pk))

  pub length-keyid : (pk : Bytes) (n : ℕ) → n ≤ 52 → length (keyid_from_pubkey c pk n) ≡ n
  length-keyid pk n h =
      rw keyid-take (omega (arith, length-take n (keyid_full_from_pubkey c pk), length-full pk))

  -- Under sound cryptography, a keyid matches a key exactly when it begins the full keyid of that key.
  pub keyid_matches_iff :
      (k : Str) (pk : Bytes)
      → (keyid_matches_pubkey c k pk ≡ true)
        ↔ ((rest : Str) × (keyid_full_from_pubkey c pk ≡ k ++ rest))
  unfolding keyid_matches_pubkey
  keyid_matches_iff k pk = (to, from)
    where
      to :
          keyid_matches_pubkey c k pk ≡ true
          → (rest : Str) × (keyid_full_from_pubkey c pk ≡ k ++ rest)
      to h =
          let same : take (len k) (keyid_full_from_pubkey c pk) ≡ k =
            sym (keyid-take pk (len k)) ∙ (seq_eq_iff _ k).0 h in
          (
            drop (len k) (keyid_full_from_pubkey c pk),
            sym (take-append-drop (len k) (keyid_full_from_pubkey c pk))
                ∙ ap (λ s. s ++ drop (len k) (keyid_full_from_pubkey c pk)) same,
          )

      from :
          ((rest : Str) × (keyid_full_from_pubkey c pk ≡ k ++ rest))
          → keyid_matches_pubkey c k pk ≡ true
      from (rest, e) =
          let plain : IsBase32 k = All-append_left _ k rest (rw e at (full-IsBase32 pk)) in
          (seq_eq_iff _ k).1
            (keyid-take pk (len k) ∙ (rw (len-base32 k plain, e) (take-append_self k rest)))

  pub keyid_matches_self :
      (pk : Bytes) (n : ℕ) → keyid_matches_pubkey c (keyid_from_pubkey c pk n) pk ≡ true
  keyid_matches_self pk n = (keyid_matches_iff (keyid_from_pubkey c pk n) pk).1 (
    drop n (keyid_full_from_pubkey c pk),
    rw keyid-take (sym (take-append-drop n (keyid_full_from_pubkey c pk))),
  )

  -- Under sound cryptography, a name that `from_pubkey` derives from a key is valid, has the label
  -- and the length that were asked for, and matches the key.
  pub from_pubkey_sound :
      (pk : Bytes) (v : Str) (n : ℕ) (name : Name)
      → from_pubkey c pk v n ≡ ok name
      → IsValid name
        × (name.vanity ≡ v)
        × (length name.keyid ≡ n)
        × (keyid_matches_pubkey c name.keyid pk ≡ true)
  unfolding from_pubkey check_keyid_len
  from_pubkey_sound pk v n name h = ground (
    arith,
    validate_vanity_iff v,
    length-keyid pk n,
    keyid-IsBase32 pk n,
    keyid_matches_self pk n,
  )
