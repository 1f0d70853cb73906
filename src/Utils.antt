-- ===== src/Utils.antt =====
-- utils.c: values of files, and the directory of a power supply.
pub mod Files
pub mod PowerSupply
pub mod FirstMatch
pub mod Paths
pub mod Sample
mod Examples
