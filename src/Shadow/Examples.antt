-- ===== src/Shadow/Examples.antt =====
-- Tests of the shadow state, and the theorems at concrete inputs.
use webos_bridge_64to.Common.{
  ℕ, ◌≡◌, ◌≢◌, refl, sym, true, false, List, [], ◌∷◌, arith, update, update_same, ℕ_discrete,
  if◌then◌else◌,
}
use webos_bridge_64to.Shadow.State.{
  StubContext, shadow_cap_slot, shadow_state_init, shadow_tex_slot, tex_array, zero_box,
}
use webos_bridge_64to.Shadow.Calls.{
  gl_bind_framebuffer, gl_bind_texture, gl_framebuffer, gl_use_program, mark_restart, set_cap,
  store_cap, store_texture,
}
use webos_bridge_64to.Shadow.Deletes.{
  forget, invalidate_all, shadow_invalidate_fbo, shadow_invalidate_texture,
}
use webos_bridge_64to.Shadow.Gl
use webos_bridge_64to.Shadow.Gl.{Call, Driver, GlState, gl_effect, gl_initial, stub_call}
use webos_bridge_64to.Shadow.Agree.{Agrees, init-Agrees}
use webos_bridge_64to.Shadow.Elide.{elision_refines, run_all, run_stub}
use webos_bridge_64to.Shadow.Contexts.{
  Stub, at_current, call_in_current, egl_create_context, egl_make_current, gl_call, in_all_contexts,
  initialise, reset_for_new_ctx, shadow_state_for_current_ctx, stub_context_state_reset,
  zeroed_context,
}
use webos_bridge_64to.Shadow.Switch
use webos_bridge_64to.Shadow.Switch.{IsSynced, Reach, World, later, open_context, start}
use webos_bridge_64to.Shadow.Refines.{switching_refines}
use webos_bridge_64to.Shadow.Stale.{create_loses_program, delete_unbinds_elsewhere}

code : Unit {0}
unfolding ℕ_discrete shadow_cap_slot shadow_state_init shadow_tex_slot tex_array gl_bind_framebuffer
    gl_bind_texture gl_use_program mark_restart set_cap store_cap store_texture forget
    invalidate_all shadow_invalidate_fbo shadow_invalidate_texture gl_effect stub_call at_current
    call_in_current egl_create_context egl_make_current gl_call in_all_contexts initialise
    reset_for_new_ctx shadow_state_for_current_ctx stub_context_state_reset
code = tt

-- A driver that has no other state, and accepts everything.
update_here : {A : Type 0} (d : ℕ → A) (k : ℕ) (a : A) → update d k a k ≡ a
unfolding ℕ_discrete
update_here d k a = ground arith

update_there : {A : Type 0} (d : ℕ → A) (k j : ℕ) (a : A) → j ≢ k → update d k a j ≡ d j
unfolding ℕ_discrete
update_there d k j a ne = ground arith

abbrev plain : Driver
plain = record {
  State = ℕ → GlState;
  get = λ d k. d k;
  accepts = λ k call d. true;
  exec = λ k call d. update d k (gl_effect call (d k));
  create = λ k d. update d k (gl_initial zero_box);
  surface = λ d k. zero_box;
  effect = λ k call d ok. update_here d k (gl_effect call (d k));
  elsewhere = λ k j call d ne. update_there d k j (gl_effect call (d k)) ne;
  redundant = λ k call d ok setter same. update_same d k (gl_effect call (d k)) (sym same);
  created = λ k d. update_here d k (gl_initial zero_box);
  create_elsewhere = λ k j d ne. update_there d k j (gl_initial zero_box) ne;
}

abbrev fresh : StubContext
fresh = record { shadow = shadow_state_init; current_vao = 0; primitive_restart = false }

abbrev calls : List Call
calls =
    Gl.use_program 5
    ∷ Gl.bind_texture 3553 7
    ∷ Gl.use_program 5
    ∷ Gl.delete_textures (7 ∷ [])
    ∷ Gl.bind_texture 3553 0
    ∷ []

-- A binding is left out the second time.
bound_twice : (gl_bind_texture 3553 7 (gl_bind_texture 3553 7 fresh).1).0 ≡ false
unfolding code
bound_twice = refl

-- After the delete even the binding of no texture is sent.
bound_after_delete :
    (stub_call
      (Gl.bind_texture 3553 0)
      (stub_call (Gl.delete_textures (7 ∷ [])) (gl_bind_texture 3553 7 fresh).1).1).0
    ≡ true
unfolding code
bound_after_delete = refl

elision_refines_example :
    let d : ℕ → GlState = λ k. gl_initial zero_box in
    let r = run_stub plain 2 calls fresh d in
    (r.1 ≡ run_all plain 2 calls d) × Agrees r.0.shadow (run_all plain 2 calls d 2)
elision_refines_example =
    elision_refines plain 2 calls fresh (λ k. gl_initial zero_box) (init-Agrees zero_box)
      (tt, (refl, (omega arith, (refl, (tt, (refl, (tt, (refl, (omega arith, (refl, tt))))))))))

-- A context is opened and a program used in it.
abbrev opened : World plain
opened = record {
  stub =
      egl_make_current 1 (
        egl_create_context 1 (record { current = 0; new_ctx = 0; contexts = λ k. zeroed_context }));
  live = update (λ k. false) 1 true;
  through = plain.create 1 (λ k. gl_initial zero_box);
  full = plain.create 1 (λ k. gl_initial zero_box);
}

abbrev in_use : World plain
in_use = record {
  stub = (gl_call (Gl.use_program 5) opened.stub).1;
  live = opened.live;
  through =
      if (gl_call (Gl.use_program 5) opened.stub).0
      then plain.exec opened.stub.current (Gl.use_program 5) opened.through
      else opened.through;
  full = plain.exec opened.stub.current (Gl.use_program 5) opened.full;
}

in_use-Reach : Reach plain (λ k. gl_initial zero_box) in_use
unfolding code
in_use-Reach =
    later
      (later start (
        open_context 1
          (record {
            stub = record { current = 0; new_ctx = 0; contexts = λ k. zeroed_context };
            live = λ k. false;
            through = λ k. gl_initial zero_box;
            full = λ k. gl_initial zero_box;
          })
          (omega arith) (omega arith) refl))
      (Switch.call (Gl.use_program 5) opened (omega arith) refl tt refl (λ j small live other. tt))

switching_refines_example : IsSynced plain in_use
switching_refines_example = switching_refines plain (λ k. gl_initial zero_box) in_use in_use-Reach

abbrev one_context : Stub
one_context = record { current = 1; new_ctx = 0; contexts = λ k. fresh }

create_loses_program_example :
    (gl_call (Gl.use_program 0) (egl_create_context 2 (gl_call (Gl.use_program 5) one_context).1)).0
    ≡ false
create_loses_program_example =
    create_loses_program one_context 5 2 (omega arith) (omega arith) (omega arith) (omega arith)

abbrev both_bound : Stub
both_bound = record {
  current = 1;
  new_ctx = 0;
  contexts = λ k. record fresh { shadow = record shadow_state_init { draw_fb = 3; read_fb = 3 } };
}

delete_unbinds_elsewhere_example :
    (gl_call
      (Gl.bind_framebuffer gl_framebuffer 0)
      (record ((gl_call (Gl.delete_framebuffers (3 ∷ [])) both_bound).1) { current = 2 })).0
    ≡ false
unfolding shadow_state_init
delete_unbinds_elsewhere_example =
    delete_unbinds_elsewhere both_bound 3 2 (omega arith) (omega arith) refl refl refl refl
