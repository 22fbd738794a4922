-- ===== src/Core/Record/Storage.antt =====
-- Which records may be stored under which key: `authorizes_storage_key` and `dht_key` of
-- crates/core/src/record.rs.
use dotminecraft.Prelude.{
  ℕ, zero, suc, ◌+◌, ◌≤◌, ◌<◌, ◌≡◌, ◌≢◌, ◌↔◌, ◌⊎◌, inl, inr, sym, ap, ◌∙◌, true, List, ◌++◌, length,
  take, drop, seq_eq, seq_eq_iff, take-append-drop, arith, Bool-cases, Elem, some,
}
use dotminecraft.Core.Text.{Str, Bytes, len, truncate}
use dotminecraft.Core.Text.Laws.{truncate-ascii}
use dotminecraft.Core.Consts.{dht_key_prefix, max_record_bytes}
use dotminecraft.Core.Body.{RecordBody, Record, IsInRange}
use dotminecraft.Core.Crypto.{Crypto, IsSound}
use dotminecraft.Core.Identity.{Identity, public_bytes}
use dotminecraft.Core.Name.{keyid_full_from_pubkey, keyid_from_pubkey}
use dotminecraft.Core.Name.Bounds.{IsBase32-IsAscii, len-base32}
use dotminecraft.Core.Name.Keyid.{
  full-IsBase32, length-full, keyid_matches_iff, keyid_matches_self, keyid-take,
}
use dotminecraft.Core.Record.{
  sign, to_bytes, signature_valid, dht_key, any_prefix, authorizes_storage_key, select_verified,
}
use dotminecraft.Core.Record.Verify.{
  Binds, IsSigned, IsFresh, signature_valid_iff, sign-IsSigned, verify-ok_iff, from_bytes-to_bytes,
}
use dotminecraft.Core.Record.Select.{select_verified_complete}

-- Some prefix whose length is in the range gives the key.
abbrev HasPrefix : Crypto → Str → Bytes → ℕ → ℕ → Type 0
HasPrefix c full key from count =
    (l : ℕ) × (from ≤ l) × (l < from + count) × (dht_key c (truncate l full) ≡ key)

any_prefix_sound :
    (c : Crypto) (full : Str) (key : Bytes) (from count : ℕ)
    → any_prefix c full key from count ≡ true
    → HasPrefix c full key from count
unfolding any_prefix
any_prefix_sound c full key from zero h = cc
any_prefix_sound c full key from (suc count) h =
    elim (Bool-cases (seq_eq (dht_key c (truncate from full)) key)) [
      | inl hit ↦ (from, omega arith, omega arith, (seq_eq_iff _ key).0 hit)
      | inr miss ↦
          let (l, lo, hi, e) = any_prefix_sound c full key (suc from) count (rw miss at h) in
          (l, omega arith, omega arith, e)
    ]

any_prefix_complete :
    (c : Crypto) (full : Str) (key : Bytes) (from count l : ℕ)
    → from ≤ l
    → l < from + count
    → dht_key c (truncate l full) ≡ key
    → any_prefix c full key from count ≡ true
unfolding any_prefix
any_prefix_complete c full key from zero l lo hi e = absurd (omega arith)
any_prefix_complete c full key from (suc count) l lo hi e =
    elim (Bool-cases (seq_eq (dht_key c (truncate from full)) key)) [
      | inl hit ↦ rw hit
      | inr miss ↦
          let later : from ≢ l =
            λ p. cc (miss, (seq_eq_iff _ key).1 (ap (λ k. dht_key c (truncate k full)) p ∙ e)) in
          rw miss (
            any_prefix_complete c full key (suc from) count l (omega (arith, later)) (omega arith)
              e)
    ]

module _ (c : Crypto) (sound : IsSound c) where
  len-full : (pk : Bytes) → len (keyid_full_from_pubkey c pk) ≡ 52
  len-full pk = len-base32 _ (full-IsBase32 c sound pk) ∙ length-full c sound pk

  truncate-full :
      (pk : Bytes) (l : ℕ)
      → truncate l (keyid_full_from_pubkey c pk) ≡ take l (keyid_full_from_pubkey c pk)
  truncate-full pk l = truncate-ascii l _ (IsBase32-IsAscii _ (full-IsBase32 c sound pk))

  -- The key is the DHT key of a beginning of the signer's full keyid.
  abbrev pub OwnsKey : Record → Bytes → Type 0
  OwnsKey r key =
      (l : ℕ) × (1 ≤ l)
      × (l ≤ 52)
      × (dht_key c (take l (keyid_full_from_pubkey c r.body.pubkey)) ≡ key)

  authorizes_sound :
      (r : Record) (key : Bytes)
      → authorizes_storage_key c r key ≡ true
      → IsSigned c r × OwnsKey r key
  unfolding authorizes_storage_key
  authorizes_sound r key h = elim (Bool-cases (signature_valid c r)) [
    | inr unsigned ↦ cc (rw unsigned at h)
    | inl signed ↦
        let full = keyid_full_from_pubkey c r.body.pubkey in
        let (l, lo, hi, e) = any_prefix_sound c full key 1 (len full) (rw signed at h) in
        (
          (signature_valid_iff c r).0 signed,
          (l, lo, omega (arith, len-full r.body.pubkey), rw (truncate-full r.body.pubkey l) at e),
        )
  ]

  authorizes_complete :
      (r : Record) (key : Bytes)
      → IsSigned c r
      → OwnsKey r key
      → authorizes_storage_key c r key ≡ true
  unfolding authorizes_storage_key
  authorizes_complete r key signed (l, lo, hi, e) =
      let full = keyid_full_from_pubkey c r.body.pubkey in
      rw ((signature_valid_iff c r).1 signed) (
        any_prefix_complete c full key 1 (len full) l lo (omega (arith, len-full r.body.pubkey))
          (rw (truncate-full r.body.pubkey l) e))

  -- A storage node accepts a record under a key exactly when it is signed and the key is the DHT
  -- key of the first `l` characters of the signer's full keyid, for some `l` from 1 to 52.
  pub authorizes_storage_key_iff :
      (r : Record) (key : Bytes)
      → (authorizes_storage_key c r key ≡ true) ↔ (IsSigned c r × OwnsKey r key)
  authorizes_storage_key_iff r key =
      (authorizes_sound r key, λ h. authorizes_complete r key h.0 h.1)

  -- A beginning of the signer's full keyid that is another text than the keyid, and has the same
  -- digest with the prefix of DHT keys.
  abbrev pub Clashes : Record → Str → Type 0
  Clashes r keyid =
      let full = keyid_full_from_pubkey c r.body.pubkey in
      (l : ℕ) × (1 ≤ l)
      × (l ≤ 52)
      × (take l full ≢ keyid)
      × (c.sha256 (dht_key_prefix ++ take l full) ≡ c.sha256 (dht_key_prefix ++ keyid))

  -- A record that may be stored under the key of a keyid is signed by its own key, and the keyid
  -- begins that key's full keyid, unless a beginning of this full keyid is another text with the same
  -- digest.
  pub authorizes-dht_key :
      (r : Record) (keyid : Str)
      → authorizes_storage_key c r (dht_key c keyid) ≡ true
      → IsSigned c r × (Binds c keyid r ⊎ Clashes r keyid)
  unfolding dht_key
  authorizes-dht_key r keyid h =
      let (signed, (l, lo, hi, e)) = authorizes_sound r (dht_key c keyid) h in
      let full = keyid_full_from_pubkey c r.body.pubkey in
      (
        signed,
        elim (Bool-cases (seq_eq (take l full) keyid)) [
          | inl same ↦ inl (
            drop l full,
            sym (take-append-drop l full)
                ∙ ap (λ s. s ++ drop l full) ((seq_eq_iff _ keyid).0 same),
          )
          | inr other ↦ inr (l, lo, hi, λ p. cc (other, (seq_eq_iff _ keyid).1 p), e)
        ],
      )

  -- What a key signs under its own public key is accepted under the key of each of its keyids.
  pub authorizes-sign :
      (body : RecordBody) (id : Identity) (n : ℕ)
      → body.v ≡ 1
      → body.pubkey ≡ public_bytes c id
      → 1 ≤ n
      → n ≤ 52
      → authorizes_storage_key c
          (sign c body id)
          (dht_key c (keyid_from_pubkey c (public_bytes c id) n))
        ≡ true
  unfolding sign
  authorizes-sign body id n v pk lo hi =
      authorizes_complete _ _ (sign-IsSigned c sound body id v pk)
        (n, lo, hi, ap (dht_key c) (simp (pk, keyid-take)))

  -- Publishing and resolving meet: if the bytes of a record that a key has signed are among the
  -- candidates, and its time is within the skew, then the selection for each keyid of that key
  -- gives a record, and none older than this one.
  pub select_verified-sign :
      (body : RecordBody) (id : Identity) (n now skew : ℕ) (cs : List Bytes)
      → body.v ≡ 1
      → body.pubkey ≡ public_bytes c id
      → IsInRange (sign c body id)
      → length (to_bytes c (sign c body id)) ≤ max_record_bytes
      → IsFresh now skew (sign c body id)
      → Elem (to_bytes c (sign c body id)) cs
      → (r : Record) × (select_verified c cs (keyid_from_pubkey c (public_bytes c id) n) now skew
          ≡ some r)
        × (body.ts ≤ r.body.ts)
  unfolding sign
  select_verified-sign body id n now skew cs v pk range fits fresh m =
      let rec = sign c body id in
      let keyid = keyid_from_pubkey c (public_bytes c id) n in
      let binds : Binds c keyid rec =
        (keyid_matches_iff c sound keyid body.pubkey).0
          (rw pk (keyid_matches_self c sound (public_bytes c id) n)) in
      select_verified_complete c keyid now skew cs (to_bytes c rec) rec m (
        from_bytes-to_bytes c rec sound range fits,
        (verify-ok_iff c sound rec keyid now skew).1
            (sign-IsSigned c sound body id v pk, binds, fresh),
      )
