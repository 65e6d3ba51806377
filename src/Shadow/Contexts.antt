-- ===== src/Shadow/Contexts.antt =====
-- include/gles_util_stub.h and stub/egl_stub.c: the shadows of all contexts, the current context, and
-- the reset that a new context triggers. Lists of names are those of the deletes.
use webos_bridge_64to.Common.{ℕ, Bool, true, false, ltb, ◌==◌, if◌then◌else◌, update}
use webos_bridge_64to.Shadow.State.{
  StubContext, StubShadowState, zeroed, shadow_state_init, shadow_cap_slot,
}
use webos_bridge_64to.Shadow.Calls.{mark_restart, store_cap}
use webos_bridge_64to.Shadow.Deletes.{
  invalidate_all, shadow_invalidate_texture, shadow_invalidate_fbo, shadow_invalidate_vao,
  shadow_invalidate_sampler,
}
use webos_bridge_64to.Shadow.Gl.{
  Call, delete_framebuffers, delete_samplers, delete_textures, delete_vertex_arrays, enable,
  stub_call, untracked,
}

-- `g_stub_current_ctx`, `g_stub_new_ctx`, and `g_shadow_ctx` with `g_stub_ctx`.
pub record Stub : Type 0 where
  pub current : ℕ
  pub new_ctx : ℕ
  pub contexts : ℕ → StubContext

abbrev pub max_contexts : ℕ
max_contexts = 8

abbrev pub zeroed_context : StubContext
zeroed_context = record { shadow = zeroed; current_vao = 0; primitive_restart = false }

unfoldable pub stub_context_state_reset : ℕ → Stub → Stub
stub_context_state_reset idx s =
    if ltb idx max_contexts then record s { contexts = update s.contexts idx zeroed_context } else s

-- The first half: `if (g_stub_new_ctx > 0)`.
unfoldable pub reset_for_new_ctx : Stub → Stub
reset_for_new_ctx s =
    let fresh = stub_context_state_reset s.new_ctx s in
    let both = if s.new_ctx == s.current then fresh else stub_context_state_reset s.current fresh in
    if ltb 0 s.new_ctx then record both { new_ctx = 0 } else s

unfoldable pub initialise : StubContext → StubContext
initialise c = if c.shadow.initialised then c else record c { shadow = shadow_state_init }

unfoldable pub at_current : (StubContext → StubContext) → Stub → Stub
at_current f s = record s { contexts = update s.contexts s.current (f (s.contexts s.current)) }

-- `g_stub_new_ctx` is 0 at the second test.
unfoldable pub shadow_state_for_current_ctx : Stub → Stub
shadow_state_for_current_ctx s = at_current initialise (reset_for_new_ctx s)

-- `for (c = 0; c < MAX_CONTEXTS; c++)`
unfoldable pub in_all_contexts : (StubShadowState → StubShadowState) → Stub → Stub
in_all_contexts f s = record s {
  contexts = λ k.
      let c = s.contexts k in if ltb k max_contexts then record c { shadow = f c.shadow } else c;
}

unfoldable pub call_in_current : Call → Stub → Bool × Stub
call_in_current call s =
    let o = stub_call call (s.contexts s.current) in
    (o.0, record s { contexts = update s.contexts s.current o.1 })

-- `glEnable` and `glDisable` set the flag of the restart index before they look at the shadow.
unfoldable pub gl_call : Call → Stub → Bool × Stub
gl_call (enable on cap) s =
    let ready = shadow_state_for_current_ctx (at_current (mark_restart on cap) s) in
    let o = store_cap on (shadow_cap_slot cap) (ready.contexts ready.current) in
    (o.0, record ready { contexts = update ready.contexts ready.current o.1 })
gl_call (delete_textures ns) s =
    (true, in_all_contexts (invalidate_all shadow_invalidate_texture ns) s)
gl_call (delete_framebuffers ns) s =
    (true, in_all_contexts (invalidate_all shadow_invalidate_fbo ns) s)
gl_call (delete_vertex_arrays ns) s =
    (true, in_all_contexts (invalidate_all shadow_invalidate_vao ns) s)
gl_call (delete_samplers ns) s =
    (true, in_all_contexts (invalidate_all shadow_invalidate_sampler ns) s)
gl_call (untracked n) s = (true, s)
gl_call call s = call_in_current call (shadow_state_for_current_ctx s)

-- `eglCreateContext`, where the proxy returned the index; 0 is EGL_NO_CONTEXT.
unfoldable pub egl_create_context : ℕ → Stub → Stub
egl_create_context raw s = if raw == 0 then s else record s { new_ctx = raw }

-- `eglMakeCurrent`
unfoldable pub egl_make_current : ℕ → Stub → Stub
egl_make_current ctx s = record s { current = ctx }
