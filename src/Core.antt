-- ===== src/Core.antt =====
-- crates/core: names, records and the key that signs them.
pub mod Text
pub mod Consts
pub mod Error
pub mod Body
pub mod Crypto
pub mod Name
pub mod Identity
pub mod Record
