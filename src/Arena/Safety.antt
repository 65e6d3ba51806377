-- ===== src/Arena/Safety.antt =====
-- Who owns the bytes of the data segment of stub/bridge_core.c.
mod Spans
mod Write
mod Disjoint
pub use Spans.*
pub use Write.*
pub use Disjoint.*
