-- ===== src/Calls.antt =====
-- stub/gles2_stub.c, stub/gles3_2_stub.c, proxy/protocol/gles2.c, proxy/protocol/gles3_2.c and
-- proxy/proxy.c: calls of OpenGL ES whose arguments are numbers of 32 bits, from the program to the
-- driver.
pub mod Args
pub mod Opcodes
pub mod Api
pub mod Send
pub mod Handlers
pub mod Deliver
pub mod Order
mod Examples
