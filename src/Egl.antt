-- ===== src/Egl.antt =====
-- proxy/protocol/egl.c: the tables that turn the stub's indices into the driver's EGL handles.
pub mod Table
pub mod State
pub mod Displays
pub mod Configs
pub mod Surfaces
pub mod Contexts
pub mod System
pub mod Lookup
pub mod Choose
pub mod Bindings
pub mod Meanwhile
pub mod Rebind
pub mod Initialize
mod Examples
