-- ===== src/Wire.antt =====
-- include/gles_bridge_protocol.h: the packing of a call's arguments, which both processes compile.
pub mod Args
pub mod RoundTrip
mod Examples
