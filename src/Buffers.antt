-- ===== src/Buffers.antt =====
-- stub/gles2_stub.c, stub/gles3_2_stub.c and include/gles_util_stub.h: the bindings of buffers that the
-- stub keeps, the bindings that it leaves out, and the cache of uniform ranges.
pub mod State
pub mod Spec
pub mod Tracked
pub mod Stale
pub mod Ranges
pub mod Cached
mod Examples
