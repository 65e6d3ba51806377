-- ===== src/Ring.antt =====
-- stub/bridge_core.c and the main loop of proxy/proxy.c: the command ring between the two processes.
pub mod Shared
pub mod Stub
pub mod Proxy
pub mod System
pub mod Counts
pub mod Contents
pub mod Wakeups
pub mod Returns
pub mod Invariant
pub mod Frames
pub mod Order
pub mod Blocking
pub mod Replies
mod Examples
