-- ===== src/Shadow/Refines.antt =====
-- Programs of several contexts, from the start.
use mathlib.Core.Path.{subst}
use webos_bridge_64to.Common.{
  ℕ, ◌<◌, ◌≡◌, ◌≢◌, ◌⊎◌, refl, sym, ap, inl, inr, true, arith, ℕ_discrete, if◌then◌else◌,
}
use webos_bridge_64to.Shadow.State.{shadow_state_init}
use webos_bridge_64to.Shadow.Deletes.{
  invalidate_all, shadow_invalidate_texture, shadow_invalidate_fbo, shadow_invalidate_vao,
  shadow_invalidate_sampler,
}
use webos_bridge_64to.Shadow.Gl
use webos_bridge_64to.Shadow.Gl.{
  Call, Driver, GlState, drop_framebuffer, drop_sampler, drop_texture, drop_vertex_array, gl_effect,
}
use webos_bridge_64to.Shadow.Contexts.{
  Stub, egl_create_context, egl_make_current, gl_call, max_contexts,
}
use webos_bridge_64to.Shadow.Agree.{Agrees, init-Agrees}
use webos_bridge_64to.Shadow.Elide.{IsWellNamed}
use webos_bridge_64to.Shadow.Kept.Drops.{
  drop_all-Agrees, drop_framebuffer-Agrees, drop_sampler-Agrees, drop_texture-Agrees,
  drop_vertex_array-Agrees,
}
use webos_bridge_64to.Shadow.Spread.{
  all-IsSpread, fbo-IsSpread, fbo-elsewhere, none-elsewhere, sampler-IsSpread, sampler-elsewhere,
  texture-IsSpread, textures-elsewhere, vao-IsSpread, vao-elsewhere,
}
use webos_bridge_64to.Shadow.Deleted.{after_call, spread-IsSynced}
use webos_bridge_64to.Shadow.Synced.{enable-IsSynced, setter-IsSynced}
use webos_bridge_64to.Shadow.Switch
use webos_bridge_64to.Shadow.Switch.{
  IsLocal, IsSynced, NoneOf, Reach, Step, World, found, later, open_context, start, switch,
}

-- What is found after a context is opened.
opened-found :
    (s : Stub) (k j : ℕ)
    → 0 < k
    → j ≡ k
    → found (egl_make_current k (egl_create_context k s)) j ≡ shadow_state_init
unfolding egl_create_context egl_make_current
opened-found s k j big e = ground arith

opened-other :
    (s : Stub) (k j : ℕ)
    → s.new_ctx ≡ 0
    → j ≢ k
    → found (egl_make_current k (egl_create_context k s)) j ≡ found s j
unfolding egl_create_context egl_make_current
opened-other s k j quiet ne = ground arith

module _ (driver : Driver) where
  open driver use {State, get, exec, accepts, create, created, create_elsewhere, surface}

  abbrev called : Call → World driver → World driver
  called c w = record {
    stub = (gl_call c w.stub).1;
    live = w.live;
    through = if (gl_call c w.stub).0 then exec w.stub.current c w.through else w.through;
    full = exec w.stub.current c w.full;
  }

  call-IsSynced :
      (c : Call) (w : World driver)
      → w.stub.current < max_contexts
      → w.live w.stub.current ≡ true
      → IsWellNamed c
      → accepts w.stub.current c w.full ≡ true
      → ((j : ℕ)
          → j < max_contexts
          → w.live j ≡ true
          → j ≢ w.stub.current
          → IsLocal c (w.stub.contexts j).shadow)
      → IsSynced driver w
      → IsSynced driver (called c w)
  unfolding gl_call gl_effect
  call-IsSynced (Gl.enable on e) w small live named ok local h =
      enable-IsSynced driver on e w small live ok h
  call-IsSynced (Gl.delete_textures ns) w small live named ok local h =
      let all = all-IsSpread texture-IsSpread ns in
      spread-IsSynced driver (Gl.delete_textures ns) (invalidate_all shadow_invalidate_texture ns)
        all.0 all.1 (drop_all-Agrees shadow_invalidate_texture drop_texture drop_texture-Agrees ns)
        (λ s g free agreed. textures-elsewhere ns s g agreed) w ok local h
  call-IsSynced (Gl.delete_framebuffers ns) w small live named ok local h =
      let all = all-IsSpread fbo-IsSpread ns in
      spread-IsSynced driver (Gl.delete_framebuffers ns) (invalidate_all shadow_invalidate_fbo ns)
        all.0 all.1
        (drop_all-Agrees shadow_invalidate_fbo drop_framebuffer drop_framebuffer-Agrees ns)
        (λ s g free agreed.
          subst (λ x. Agrees x g)
            (sym (
              none-elsewhere shadow_invalidate_fbo (λ n. (s.draw_fb ≡ n) ⊎ (s.read_fb ≡ n)) s
                (fbo-elsewhere s) ns free))
            agreed)
        w ok local h
  call-IsSynced (Gl.delete_vertex_arrays ns) w small live named ok local h =
      let all = all-IsSpread vao-IsSpread ns in
      spread-IsSynced driver (Gl.delete_vertex_arrays ns) (invalidate_all shadow_invalidate_vao ns)
        all.0 all.1
        (drop_all-Agrees shadow_invalidate_vao drop_vertex_array drop_vertex_array-Agrees ns)
        (λ s g free agreed.
          subst (λ x. Agrees x g)
            (sym
              (none-elsewhere shadow_invalidate_vao (λ n. s.vao ≡ n) s (vao-elsewhere s) ns free))
            agreed)
        w ok local h
  call-IsSynced (Gl.delete_samplers ns) w small live named ok local h =
      let all = all-IsSpread sampler-IsSpread ns in
      spread-IsSynced driver (Gl.delete_samplers ns) (invalidate_all shadow_invalidate_sampler ns)
        all.0 all.1 (drop_all-Agrees shadow_invalidate_sampler drop_sampler drop_sampler-Agrees ns)
        (λ s g free agreed.
          subst (λ x. Agrees x g)
            (sym (
              none-elsewhere shadow_invalidate_sampler
                (λ n. (u : ℕ) × ((u < 32) × (s.sampler u ≡ n))) s (sampler-elsewhere s) ns free))
            agreed)
        w ok local h
  call-IsSynced (Gl.untracked n) w small live named ok local h = record {
    same = ap (exec w.stub.current (Gl.untracked n)) h.same;
    pending = h.pending;
    agrees = λ j small' live'.
        let old = h.agrees j small' live' in
        after_call driver w.stub.current j (Gl.untracked n) w.full (found w.stub j) ok
          (λ e. subst (λ i. Agrees (found w.stub j) (get w.full i)) e old) (λ ne. old);
  }
  call-IsSynced c w small live named ok local h = setter-IsSynced driver c w small live named ok h

  step-IsSynced : {w w' : World driver} → Step driver w w' → IsSynced driver w → IsSynced driver w'
  unfolding egl_create_context egl_make_current ℕ_discrete
  step-IsSynced (Switch.call c w small live named ok local) h =
      call-IsSynced c w small live named ok local h
  step-IsSynced (open_context k w big small quiet) h = record {
    same = ap (create k) h.same;
    pending = inr (ground arith);
    agrees = λ j small' live'. elim (ℕ_discrete j k) [
      | yes e ↦ rw (opened-found w.stub k j big e) (
          subst (λ i. Agrees shadow_state_init (get (create k w.full) i)) (sym e)
            (rw (created k w.full) (init-Agrees (surface w.full k))))
      | no ne ↦
          let before : w.live j ≡ true = ground arith in
          rw (opened-other w.stub k j quiet ne, create_elsewhere k j w.full ne)
            (h.agrees j small' before)
    ];
  }
  step-IsSynced (switch k w quiet) h = record {
    same = h.same;
    pending = inl quiet;
    agrees = h.agrees;
  }

  -- In every state that a program of several contexts can reach from the start, the driver that is sent
  -- what the stub sends is in the state of the driver that is sent every call, and the shadow that the
  -- stub finds in each open context agrees with that state. A program here makes a context current as
  -- soon as it creates it and calls a tracked setter before it creates or switches again; the driver
  -- accepts each call; and framebuffers, vertex arrays and samplers are not deleted under a name that
  -- the shadow of another open context holds.
  pub switching_refines : (d : State) (w : World driver) → Reach driver d w → IsSynced driver w
  switching_refines d w start = record {
    same = refl;
    pending = inl refl;
    agrees = λ j small live. ground arith;
  }
  switching_refines d w (later {w = v} r step) = step-IsSynced step (switching_refines d v r)
