-- ===== src/Sync.antt =====
-- The handles of fences that the stub gives out without asking the proxy (stub/bridge_core.c), and the fences
-- that the proxy keeps for them (proxy/protocol/gles3_2.c).
pub mod Handles
pub mod Fresh
pub mod Fences
pub mod Found
mod Examples
