-- ===== src/Maps.antt =====
-- stub/gles3_2_stub.c and stub/gles2_stub.c: the buffers that the program has mapped, as the stub keeps
-- them.
pub mod State
pub mod Cleared
pub mod Unique
pub mod Found
pub mod Flushed
pub mod Proxy
pub mod Allocated
pub mod Sides
pub mod Mirrored
pub mod Agreement
pub mod Delivered
mod Examples
mod SideExamples
