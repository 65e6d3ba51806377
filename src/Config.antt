-- ===== src/Config.antt =====
-- bridge/bridge_config.c: the settings file, and the ring size that both processes derive from it.
pub mod Slots
pub mod Rounding
pub mod Text
pub mod File
pub mod Validity
pub mod Caching
pub mod Agreement
mod Examples
