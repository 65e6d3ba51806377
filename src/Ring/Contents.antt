-- ===== src/Ring/Contents.antt =====
-- stub/bridge_core.c and proxy/proxy.c: what the slots of the ring hold.
mod Defs
mod Kept
mod Log
mod Answered
pub use Defs.*
unfoldable pub use Defs.{requests}
pub use Kept.*
pub use Log.*
pub use Answered.*
