-- ===== src/Lib.antt =====
-- webos-bridge-64to32: a 64-bit program calls EGL, GLES and Wayland through stub libraries, which send each
-- call to a 32-bit proxy process over shared memory.
--
-- Config.* models bridge/bridge_config.c, which both processes use: the settings file, read through the C
-- library's fgets and sscanf (Text), the settings and their cache (File), the ring size (Slots). The width
-- of `long` is a parameter, since the stub has 64 bits and the proxy 32.
--
-- Arena.* models the data segment of stub/bridge_core.c: `ring_data_alloc` (Alloc), and the commands that
-- own its bytes until the proxy releases them (State). The words are `uint64_t` and wrap; Fit shows what
-- they compute in unbounded counts. `ring_data_alloc` takes the list of the values that its rounds load
-- from `data_tail`, so no bound on the rounds is chosen.
--
-- Ring.* models the command ring: the shared segment (Shared), the producer of stub/bridge_core.c (Stub),
-- the dispatch loop of proxy/proxy.c (Proxy), and the interleavings of the two (System), where each load,
-- store, read and write of shared memory is one step. `bridge_begin` is begin and reserved, `bridge_ctrl`
-- and the stores of a caller are fill, `publish_cur` is send, publish, see_awake, see_asleep and post, and
-- `wait_completed` is see_done, see_undone and woken. The accesses are sequentially consistent. A handler
-- is arbitrary: it writes any result. A run ends before a sequence number reaches 2 ^ 64. Frames reads off
-- a run which swaps it has published.
--
-- Egl.* models proxy/protocol/egl.c: one handle table (Table), the state (State), and the handlers of
-- displays, configs, surfaces and contexts, each under its C name in snake case. The driver's functions are
-- arguments, so they may answer anything at each call; `driver` in the state is what it last accepted in
-- eglMakeCurrent. System is the handlers in any order, and Meanwhile those of them that leave what is
-- recorded for one context. The tables are functions of the index: a write past the end of a C array
-- changes an entry that nothing reads.
--
-- Wire.* models the ArgWriter and ArgReader of include/gles_bridge_protocol.h (Args), with which a stub
-- packs and a handler unpacks the arguments of a call.
--
-- Sync.* models the fence handles of stub/bridge_core.c (Handles). The loop of `bridge_sync_alloc` has the
-- fuel of its own bound, BRIDGE_MAX_SYNCS - 1 rounds. Fences is the proxy's side, in
-- proxy/protocol/gles3_2.c: the fences behind the handles, and the waits that are put off.
--
-- Query.* models `eglQueryString` of stub/egl_stub.c and its cache (Strings).
--
-- Upload.* models the functions of include/gles_util_stub.h that say how many bytes a call reads: sizes of
-- pixels (Formats), images under the pixel store state (Images), and the vertices of an indexed draw
-- (Indices). Layout says where OpenGL ES places the pixels of an image, without the code's own strides.
--
-- Wl.* models the Wayland channel of stub/bridge_core.c and the request loop of wl_dispatch_thread in
-- proxy/proxy.c: the operations (Channel), and the two sides step by step (System). Which requests have a
-- handler is a parameter, and what a handler writes back, a result, a data offset and a data size, is an
-- argument of the step that dispatches it; the bytes of the data are not modelled.
--
-- Shadow.* models the copy of the GL state that the stub keeps under CACHE_GL_STATE, to leave out calls
-- that change nothing: the StubShadowState of include/gles_util_stub.h (State), the calls of
-- stub/gles2_stub.c and stub/gles3_2_stub.c that read and write it, each under its C name (Calls), the
-- names that a delete takes out of it (Deletes), and the change of the current context (Contexts). Gl is
-- the state that those calls set in a driver, and what each call does to it; the rest of the driver is a
-- parameter, the record Driver, whose laws say what a call that it accepts does to the state of its
-- context, that other contexts keep theirs, that a call which sets what is set already changes nothing, and
-- how a context starts. A GLfloat is its pattern of 32 bits. The range of depths is left out.
--
-- Calls.* models the calls whose arguments are all of 32 bits and that have no result, each twice: the
-- function of the stub, from its arguments to the opcode and the words that it packs (Send), and the
-- handler of the proxy, from the words to the call of the driver (Handlers). Opcodes has the numbers of
-- include/gles_bridge_protocol.h and Api the calls of the driver. C does not fix the order in which the
-- arguments of a call are evaluated, and a handler that reads its words in them depends on it: the order is
-- a parameter of the handlers.
--
-- Buffers.* models what the stub knows of the buffers that are bound: the bindings of a context (State),
-- the calls that a GL driver would see next to them (Spec), and the cache of the ranges of uniform buffers
-- in glBindBufferRange (Ranges), with the hash of the bytes, fnv1a_hash. One context is current.
--
-- Maps.* models the buffers that the program has mapped: the stub's table of maps (State), the proxy's
-- table and its handlers (Proxy), and the two together (Sides), where a call of the program runs the stub's
-- part and the handler. Whether the driver gives memory to a map is an argument of each call. A pointer to
-- memory is whether it is NULL. The stub has 64 bits and the proxy 32, so the handlers narrow offsets and
-- lengths, which are patterns in two's complement there. A store past the end of the stub's table sets the
-- field `overrun` and has no other effect in the model. In Sides, a malloc of the stub never fails.
--
-- A loop over a table has the number of its rounds as fuel.
--
-- Not modelled: the calls of the driver and of the kernel, logging, the frame time statistics (built only
-- under DEBUG_FRAMETIME), the stubs and handlers of GLES calls with data, results or arguments of 64 bits
-- beyond those named above, the vertices that a draw takes along from mapped memory, the cache of
-- framebuffer attachments in the proxy, and the single Wayland requests and their events.
pub mod Common
pub mod Config
pub mod Arena
pub mod Ring
pub mod Egl
pub mod Wire
pub mod Sync
pub mod Upload
pub mod Query
pub mod Wl
pub mod Shadow
pub mod Calls
pub mod Buffers
pub mod Maps
