-- ===== src/Core/Body.antt =====
-- The data of crates/core/src/record.rs. Byte strings are lists of numbers below 256, texts are
-- lists of code points; `IsInRange` states what the Rust types bound.
use dotminecraft.Prelude.{ℕ, ◌^◌, ◌<◌, ◌≡◌, List, length, All}
use dotminecraft.Core.Text.{Str, Bytes}

pub record RecordBody : Type 0 where
  pub v : ℕ
  pub pubkey : Bytes
  pub peer_id : Str
  pub addrs : List Str
  pub vanity : Str
  pub ts : ℕ
  pub ttl : ℕ

pub record Record : Type 0 where
  pub body : RecordBody
  pub sig : Bytes

pub record IsInRange (r : Record) : Type 0 where
  pub version : r.body.v < 2 ^ 8
  pub pubkey_length : length r.body.pubkey ≡ 32
  pub pubkey_bytes : All (λ b. b < 2 ^ 8) r.body.pubkey
  pub time : r.body.ts < 2 ^ 64
  pub validity : r.body.ttl < 2 ^ 32
  pub sig_length : length r.sig ≡ 64
  pub sig_bytes : All (λ b. b < 2 ^ 8) r.sig
