-- ===== src/Upload.antt =====
-- include/gles_util_stub.h: how many bytes of the program's memory an upload reads.
pub mod Formats
pub mod Images
pub mod Indices
pub mod Cover
pub mod Layout
pub mod Bounds
pub mod Tight
mod Examples
