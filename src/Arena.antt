-- ===== src/Arena.antt =====
-- stub/bridge_core.c: the ring allocator of the 64 MB data segment, and the release of a command's
-- bytes by the loop of proxy/proxy.c.
pub mod Alloc
pub mod Fit
pub mod State
pub mod Safety
pub mod Progress
mod Examples
