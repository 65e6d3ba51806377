-- ===== src/Query.antt =====
-- stub/egl_stub.c: the answers that the stub keeps.
pub mod Strings
pub mod Alias
mod Examples
