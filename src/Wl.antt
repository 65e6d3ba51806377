-- ===== src/Wl.antt =====
-- stub/bridge_core.c and proxy/proxy.c: the Wayland channel, with its one command slot.
pub mod Channel
pub mod System
pub mod Exchange
pub mod Space
mod Examples
