-- ===== src/Egl/Examples.antt =====
-- Tests of the EGL handlers, and the theorems at concrete inputs.
use webos_bridge_64to.Common.{ℕ, ◌≡◌, arith, ℕ_discrete}
use webos_bridge_64to.Egl.Table.{find_handle, table_alloc, table_free, set_owner, handle_at}
use webos_bridge_64to.Egl.State.{Egl, egl_tables_init, max_contexts, disp, ctx, surf}
use webos_bridge_64to.Egl.Displays.{h_egl_get_display, h_egl_initialize}
use webos_bridge_64to.Egl.Configs.{choose_config, choose_configs}
use webos_bridge_64to.Egl.Surfaces.{
  add_surface, h_egl_create_pbuffer_surface, h_egl_destroy_surface, forget_surface,
  forget_in_bindings,
}
use webos_bridge_64to.Egl.Contexts.{h_egl_create_context, h_egl_make_current, egl_bind_target_ctx}
use webos_bridge_64to.Egl.System.{
  Reach, start, later, create_pbuffer, create_context, make_current, destroy_surface,
}
use webos_bridge_64to.Egl.Bindings.{IsLive, bound_surfaces-IsLive}
use webos_bridge_64to.Egl.Meanwhile.{Meanwhile, Spares, further, nothing}
use webos_bridge_64to.Egl.Rebind.{interleaved, bind_restores, last_context_is_not_bound}

code : Unit {0}
unfolding ℕ_discrete find_handle table_alloc table_free set_owner handle_at h_egl_get_display
    h_egl_initialize choose_config choose_configs add_surface h_egl_create_pbuffer_surface
    h_egl_destroy_surface forget_surface forget_in_bindings h_egl_create_context h_egl_make_current
    egl_bind_target_ctx Spares
code = tt

abbrev accept : ℕ → ℕ → ℕ → ℕ → ℕ
accept a b c d = 1

abbrev with_surface : Egl
with_surface = (h_egl_create_pbuffer_surface (λ a b c. 500) 7 1 1 0 egl_tables_init).1

abbrev with_context : Egl
with_context = (h_egl_create_context (λ a b c d. 600) 7 1 1 0 0 with_surface).1

abbrev destroyed : Egl
destroyed =
    (h_egl_destroy_surface (λ a b. 1) 1 1 (h_egl_make_current accept 1 1 1 1 with_context).1).1

destroyed-Reach : Reach destroyed
destroyed-Reach =
    later
      (later
        (later (later start (create_pbuffer (λ a b c. 500) 7 1 1 0))
          (create_context (λ a b c d. 600) 7 1 1 0 0))
        (make_current accept 1 1 1 1))
      (destroy_surface (λ a b. 1) 1 1)

bound_surfaces-IsLive_example :
    IsLive (destroyed.surfaces) (destroyed.bindings 1).draw
    × IsLive (destroyed.surfaces) (destroyed.bindings 1).read
bound_surfaces-IsLive_example = bound_surfaces-IsLive destroyed-Reach 1 (omega arith) (omega arith)

-- Another thread creates a surface, makes context 2 current with it and destroys it.
abbrev other_surface : Egl
other_surface =
    (h_egl_create_pbuffer_surface (λ a b c. 501) 8 1 1 0
      (h_egl_make_current accept 1 1 1 1 with_context).1).1

abbrev other_current : Egl
other_current = (h_egl_make_current accept 1 2 2 2 other_surface).1

abbrev other_gone : Egl
other_gone = (h_egl_destroy_surface (λ a b. 1) 1 2 other_current).1

meanwhile : Meanwhile 1 (h_egl_make_current accept 1 1 1 1 with_context).1 other_gone
unfolding code
meanwhile =
    further
      (further (further nothing (create_pbuffer (λ a b c. 501) 8 1 1 0) tt)
        (make_current accept 1 2 2 2) (omega arith))
      (destroy_surface (λ a b. 1) 1 2) (λ e. absurd (omega arith), λ e. absurd (omega arith))

bind_restores_example :
    ((egl_bind_target_ctx accept 1 other_gone).current_ctx ≡ 1)
    × ((egl_bind_target_ctx accept 1 other_gone).driver ≡ record {
      dpy = disp with_context 1;
      draw = surf with_context 1;
      read = surf with_context 1;
      ctx = ctx with_context 1;
    })
unfolding code
bind_restores_example =
    bind_restores accept 1 1 1 1 with_context other_gone (λ a b c d. omega arith) (omega arith)
      (omega arith) (omega arith) meanwhile (omega arith)

last_context_is_not_bound_example :
    (egl_bind_target_ctx accept max_contexts
      (interleaved accept 1 1 1 max_contexts 1 0 0 1 with_context)).driver
    ≡ record {
      dpy = disp with_context 1;
      draw = surf with_context 0;
      read = surf with_context 0;
      ctx = ctx with_context 1;
    }
last_context_is_not_bound_example =
    last_context_is_not_bound accept 1 1 1 1 0 0 1 with_context (λ a b c d. omega arith)

abbrev with_display : Egl
with_display = (h_egl_get_display (λ wl. 300) 9 7 egl_tables_init).1
