-- ===== src/Shadow.antt =====
-- include/gles_util_stub.h and stub/gles2_stub.c, stub/gles3_2_stub.c: the shadow of the driver's
-- state in the 32-bit stub, and the calls that it lets the stub leave out.
pub mod State
pub mod Calls
pub mod Deletes
pub mod Gl
pub mod Agree
pub mod Kept
pub mod Elide
pub mod Contexts
pub mod Switch
pub mod Synced
pub mod Spread
pub mod Deleted
pub mod Refines
pub mod Stale
mod Examples
