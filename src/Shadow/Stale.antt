-- ===== src/Shadow/Stale.antt =====
-- Where the shadow and the driver part: the reset that a new context triggers, and deleted names of
-- objects that each context has of its own.
use webos_bridge_64to.Common.{ℕ, ◌<◌, ◌≡◌, ◌≢◌, true, false, [], ◌∷◌, arith, ℕ_discrete}
use webos_bridge_64to.Shadow.State.{shadow_state_init, shadow_cap_slot}
use webos_bridge_64to.Shadow.Calls.{
  gl_use_program, gl_bind_framebuffer, gl_framebuffer, mark_restart, store_cap,
  gl_primitive_restart_fixed_index,
}
use webos_bridge_64to.Shadow.Deletes.{forget, invalidate_all, shadow_invalidate_fbo}
use webos_bridge_64to.Shadow.Gl
use webos_bridge_64to.Shadow.Gl.{gl_effect, GlState, stub_call}
use webos_bridge_64to.Shadow.Contexts.{
  Stub, at_current, call_in_current, egl_create_context, gl_call, in_all_contexts, initialise,
  max_contexts, reset_for_new_ctx, shadow_state_for_current_ctx, stub_context_state_reset,
}

-- In a context k below 8, a program that uses the program object p, creates a context j below 8 other
-- than k and other than 0 while k stays current, and then stops using p has its last call left out,
-- whatever was in the shadows before.
pub create_loses_program :
    (s : Stub) (p j : ℕ)
    → s.current < max_contexts
    → 0 < j
    → j < max_contexts
    → j ≢ s.current
    → let used = gl_call (Gl.use_program p) s in
      (gl_call (Gl.use_program 0) (egl_create_context j used.1)).0 ≡ false
unfolding gl_call call_in_current stub_call gl_use_program egl_create_context
    shadow_state_for_current_ctx at_current initialise reset_for_new_ctx stub_context_state_reset
    shadow_state_init ℕ_discrete
create_loses_program s p j small positive below other = ground arith

-- In a context k below 8 whose creation is the last event, enabling the restart index is sent to the
-- driver, but the flag from which the stub computes the range of an indexed draw is off afterwards.
restart_is_lost :
    (s : Stub)
    → 0 < s.current
    → s.current < max_contexts
    → let r =
        gl_call
          (Gl.enable true gl_primitive_restart_fixed_index)
          (egl_create_context s.current s) in
      (r.0 ≡ true) × ((r.1.contexts s.current).primitive_restart ≡ false)
unfolding gl_call egl_create_context mark_restart store_cap shadow_cap_slot
    shadow_state_for_current_ctx at_current initialise reset_for_new_ctx stub_context_state_reset
    shadow_state_init ℕ_discrete
restart_is_lost s positive small = ground arith

-- Where no context was just created, and a context below 8 that the stub has seen has a framebuffer bound to draw
-- and to read whose name is deleted in the current one, though framebuffers are not shared: the stub leaves out the
-- next binding of framebuffer 0 in that context.
pub delete_unbinds_elsewhere :
    (s : Stub) (f k : ℕ)
    → f ≢ 0
    → k < max_contexts
    → s.new_ctx ≡ 0
    → (s.contexts k).shadow.initialised ≡ true
    → (s.contexts k).shadow.draw_fb ≡ f
    → (s.contexts k).shadow.read_fb ≡ f
    → let deleted = (gl_call (Gl.delete_framebuffers (f ∷ [])) s).1 in
      (gl_call (Gl.bind_framebuffer gl_framebuffer 0) (record deleted { current = k })).0 ≡ false
unfolding gl_call call_in_current stub_call gl_bind_framebuffer in_all_contexts invalidate_all
    shadow_invalidate_fbo forget shadow_state_for_current_ctx at_current initialise
    reset_for_new_ctx stub_context_state_reset ℕ_discrete
delete_unbinds_elsewhere s f k real small quiet on draw read = ground arith
