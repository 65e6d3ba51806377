-- ===== src/Ring/Wakeups.antt =====
-- stub/bridge_core.c and proxy/proxy.c: the wake-ups through the two eventfds.
mod Defs
mod ByStub
mod ByProxy
pub use Defs.*
pub use ByStub.*
pub use ByProxy.*
