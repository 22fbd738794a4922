-- ===== src/Tests/Toy.antt =====
-- A concrete choice of the functions that crates/core takes from other packages: simple stand-ins
-- that have the documented lengths, alphabets and round trips.
use dotminecraft.Prelude.{
  ℕ, zero, suc, ◌+◌, ◌%◌, ◌≡◌, refl, ◌∙◌, true, List, [], ◌∷◌, ◌++◌, map, length, take, drop,
  replicate, All, seq_eq, seq_eq_refl, length-take-append, length-map, take-append_self,
  drop-append_self, Result, ok, err, ◌>>=◌, arith,
}
use dotminecraft.Core.Text.{Str, Bytes, text}
use dotminecraft.Core.Body.{Record}
use dotminecraft.Core.Crypto.{Crypto, IsSound, is_base32_upper}

abbrev digest : Bytes → Bytes
digest b = take 32 (b ++ replicate 32 0)

abbrev letter : ℕ → ℕ
letter x = 65 + x % 26

abbrev letters : Bytes → Str
letters b = map letter (take 52 (b ++ replicate 52 0))

abbrev pub seal : Bytes → Bytes → Bytes
seal secret message = take 64 (secret ++ (message ++ replicate 64 0))

-- A sequence after its length.
abbrev put_seq : Bytes → Bytes → Bytes
put_seq xs rest = length xs ∷ (xs ++ rest)

abbrev take_seq : Bytes → Result Str (Bytes × Bytes)
take_seq [] = err (text "end")
take_seq (n ∷ s) = ok (take n s, drop n s)

abbrev put_seqs : List Str → Bytes → Bytes
put_seqs [] rest = rest
put_seqs (x ∷ xs) rest = put_seq x (put_seqs xs rest)

abbrev take_seqs : ℕ → Bytes → Result Str (List Str × Bytes)
take_seqs zero s = ok ([], s)
take_seqs (suc k) s = do (x, s') ← take_seq s; (xs, s'') ← take_seqs k s'; ok (x ∷ xs, s'')

take_seqs-put_seqs :
    (xs : List Str) (rest : Bytes) → take_seqs (length xs) (put_seqs xs rest) ≡ ok (xs, rest)
take_seqs-put_seqs [] rest = refl
take_seqs-put_seqs (x ∷ xs) rest =
    simp (take-append_self, drop-append_self) (rw (take_seqs-put_seqs xs rest))

abbrev encode : Record → Bytes
encode r =
    r.body.v
    ∷ r.body.ts
    ∷ r.body.ttl
    ∷ length r.body.addrs
    ∷ put_seq r.body.pubkey
        (put_seq r.body.peer_id (put_seq r.body.vanity (put_seqs r.body.addrs (put_seq r.sig []))))

abbrev decode : Bytes → Result Str Record
decode (v ∷ ts ∷ ttl ∷ k ∷ s) = do
  (pubkey, s1) ← take_seq s
  (peer_id, s2) ← take_seq s1
  (vanity, s3) ← take_seq s2
  (addrs, s4) ← take_seqs k s3
  (sig, s5) ← take_seq s4
  ok (record {
    body = record {
      v = v;
      pubkey = pubkey;
      peer_id = peer_id;
      addrs = addrs;
      vanity = vanity;
      ts = ts;
      ttl = ttl;
    };
    sig = sig;
  })
decode _ = err (text "short")

decode-encode : (r : Record) → decode (encode r) ≡ ok r
decode-encode r = simp (take-append_self, drop-append_self, take_seqs-put_seqs)

abbrev pub toy : Crypto
toy = record {
  sha256 = digest;
  base32 = letters;
  public_key = λ s. s;
  valid_key = λ k. true;
  signature = seal;
  accepts = λ k m s. seq_eq s (seal k m);
  encode_body = λ b. (b.ts % 256) ∷ [];
  encode_record = encode;
  decode_record = decode;
}

letter_upper : (x : ℕ) → is_base32_upper (letter x) ≡ true
letter_upper x = ground arith

letters_upper : (b : Bytes) → All (λ x. is_base32_upper x ≡ true) (map letter b)
letters_upper [] = tt
letters_upper (x ∷ b) = (letter_upper x, letters_upper b)

pub toy-IsSound : IsSound toy
toy-IsSound = record {
  sha256-length = λ b. length-take-append 32 b (replicate 32 0) (omega arith);
  base32-length = λ b h.
      length-map (take 52 (b ++ replicate 52 0)) letter
      ∙ length-take-append 52 b (replicate 52 0) (omega arith);
  base32_alphabet = λ b. letters_upper (take 52 (b ++ replicate 52 0));
  public_key_valid = λ s. refl;
  accepts-signature = λ s m. seq_eq_refl (seal s m);
  decode-encode = λ r h. decode-encode r;
}
