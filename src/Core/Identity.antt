-- ===== src/Core/Identity.antt =====
-- crates/core/src/identity.rs: an Ed25519 key pair, kept as its 32 secret bytes. Generation and
-- the wiping of memory are not modelled.
use dotminecraft.Prelude.{ℕ, Result}
use dotminecraft.Core.Text.{Str, Bytes}
use dotminecraft.Core.Error.{CoreError}
use dotminecraft.Core.Crypto.{Crypto}
use dotminecraft.Core.Name.{Name, from_pubkey}

pub record Identity : Type 0 where
  pub signing : Bytes

unfoldable pub from_secret_bytes : Bytes → Identity
from_secret_bytes bytes = record { signing = bytes }

unfoldable pub secret_bytes : Identity → Bytes
secret_bytes id = id.signing

module _ (c : Crypto) where
  unfoldable pub public_bytes : Identity → Bytes
  public_bytes id = c.public_key id.signing

  unfoldable pub name : Identity → Str → ℕ → Result CoreError Name
  unfolding from_pubkey
  name id vanity n = from_pubkey c (public_bytes id) vanity n
