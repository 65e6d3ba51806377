-- ===== src/Egl/Bindings.antt =====
-- proxy/protocol/egl.c: the surfaces that the proxy may bind again later, and the NULL entries.
mod Defs
mod ByHandler
mod ByContext
mod All
pub use Defs.*
pub use All.*
