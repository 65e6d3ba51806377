-- ===== src/Shadow/Switch.antt =====
-- Programs of several contexts: the stub beside a driver that is sent its calls and a driver that is
-- sent all calls.
use webos_bridge_64to.Common.{
  ℕ, ◌<◌, ◌≡◌, ◌≢◌, ◌⊎◌, Bool, true, false, List, [], ◌∷◌, ◌==◌, if◌then◌else◌, update, ltb, ◌&&◌,
}
use webos_bridge_64to.Shadow.State.{StubShadowState, shadow_state_init}
use webos_bridge_64to.Shadow.Gl.{
  Call, Driver, delete_framebuffers, delete_samplers, delete_vertex_arrays,
}
use webos_bridge_64to.Shadow.Contexts.{
  Stub, zeroed_context, max_contexts, gl_call, egl_create_context, egl_make_current,
}
use webos_bridge_64to.Shadow.Agree.{Agrees}
use webos_bridge_64to.Shadow.Elide.{IsWellNamed}

-- None of the names is bound in the shadow. Name 0 is no object.
abbrev pub NoneOf : (ℕ → Type 0) → List ℕ → Type 0
NoneOf IsBound [] = Unit
NoneOf IsBound (n ∷ ns) = (n ≢ 0 → ¬ IsBound n) × NoneOf IsBound ns

-- The deletes of objects that each context has of its own, and of samplers, whose bindings in other
-- contexts the driver keeps, hit no name that another context's shadow holds.
abbrev pub IsLocal : Call → StubShadowState → Type 0
IsLocal (delete_framebuffers ns) s = NoneOf (λ n. (s.draw_fb ≡ n) ⊎ (s.read_fb ≡ n)) ns
IsLocal (delete_vertex_arrays ns) s = NoneOf (λ n. s.vao ≡ n) ns
IsLocal (delete_samplers ns) s = NoneOf (λ n. (u : ℕ) × ((u < 32) × (s.sampler u ≡ n))) ns
IsLocal call s = Unit

-- The shadow that the next look of context `j` finds.
abbrev pub found : Stub → ℕ → StubShadowState
found s j =
    if ltb 0 s.new_ctx && s.new_ctx == j
    then shadow_state_init
    else if (s.contexts j).shadow.initialised
    then (s.contexts j).shadow
    else shadow_state_init

module _ (driver : Driver) where
  open driver use {State, get, exec, accepts, create}

  -- `live` tells the contexts that the program has opened.
  pub record World : Type 0 where
    pub stub : Stub
    pub live : ℕ → Bool
    pub through : State
    pub full : State

  -- A program step. A context that is created is made current at once, and before it creates another
  -- or changes the context, the program makes a call that looks at the shadow.
  pub data Step : World → World → Type 0 where
    call :
        (c : Call) (w : World)
        → w.stub.current < max_contexts
        → w.live w.stub.current ≡ true
        → IsWellNamed c
        → accepts w.stub.current c w.full ≡ true
        → ((j : ℕ)
            → j < max_contexts
            → w.live j ≡ true
            → j ≢ w.stub.current
            → IsLocal c (w.stub.contexts j).shadow)
        → Step w (record {
          stub = (gl_call c w.stub).1;
          live = w.live;
          through = if (gl_call c w.stub).0 then exec w.stub.current c w.through else w.through;
          full = exec w.stub.current c w.full;
        })
    open_context :
        (k : ℕ) (w : World)
        → 0 < k
        → k < max_contexts
        → w.stub.new_ctx ≡ 0
        → Step w (record {
          stub = egl_make_current k (egl_create_context k w.stub);
          live = update w.live k true;
          through = create k w.through;
          full = create k w.full;
        })
    switch :
        (k : ℕ) (w : World)
        → w.stub.new_ctx ≡ 0
        → Step w (record w { stub = egl_make_current k w.stub })

  pub data Reach (d : State) : World → Type 0 where
    start : Reach d (record {
      stub = record { current = 0; new_ctx = 0; contexts = λ k. zeroed_context };
      live = λ k. false;
      through = d;
      full = d;
    })
    later : {w w' : World} → Reach d w → Step w w' → Reach d w'

  -- The two drivers are in one state, and every open context's shadow agrees with it.
  pub record IsSynced (w : World) : Type 0 where
    pub same : w.through ≡ w.full
    pub pending : (w.stub.new_ctx ≡ 0) ⊎ (w.stub.new_ctx ≡ w.stub.current)
    pub agrees :
        (j : ℕ) → j < max_contexts → w.live j ≡ true → Agrees (found w.stub j) (get w.full j)
