-- ===== src/Security.antt =====
-- generic/security: the key store, the ciphers and the hashes.
pub mod Keystore
pub mod FreeIndex
pub mod Aes
pub mod KeyFile
pub mod Tables
pub mod Groups
pub mod SaveLoad
pub mod Device
pub mod Restart
pub mod Sessions
pub mod Calls
pub mod Interleaving
pub mod Sha
pub mod Generate
pub mod Hashing
pub mod RoundTrip
pub mod Rsa
pub mod RsaRoundTrip
pub mod Dump
pub mod Ownership
pub mod Suite
mod Examples
