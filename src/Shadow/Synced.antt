-- ===== src/Shadow/Synced.antt =====
-- What each step of a program does to the agreement of the shadows with the driver.
use mathlib.Core.Path.{subst}
use webos_bridge_64to.Common.{
  ℕ, ◌<◌, ◌≡◌, ◌≢◌, ◌⊎◌, refl, sym, ap, ◌∙◌, inl, inr, Bool, true, false, arith, Bool-cases,
  if◌then◌else◌, update, ℕ_discrete,
}
use webos_bridge_64to.Shadow.State.{StubContext, shadow_cap_slot}
use webos_bridge_64to.Shadow.Calls.{mark_restart, store_cap}
use webos_bridge_64to.Shadow.Gl
use webos_bridge_64to.Shadow.Gl.{Call, Driver, GlState, gl_effect, gl_initial, is_setter, stub_call}
use webos_bridge_64to.Shadow.Contexts.{
  Stub, at_current, gl_call, call_in_current, initialise, max_contexts, reset_for_new_ctx,
  shadow_state_for_current_ctx, stub_context_state_reset,
}
use webos_bridge_64to.Shadow.Agree.{Agrees}
use webos_bridge_64to.Shadow.Elide.{IsWellNamed, stub_call-Sound}
use webos_bridge_64to.Shadow.Kept.Bindings.{store_cap-Sound}
use webos_bridge_64to.Shadow.Switch.{IsSynced, World, found}

-- A look at the shadow of the current context finds it, and leaves the other contexts alone.
ready-current :
    (s : Stub)
    → s.current < max_contexts
    → (s.new_ctx ≡ 0) ⊎ (s.new_ctx ≡ s.current)
    → let s' = shadow_state_for_current_ctx s in
      ((s'.contexts s'.current).shadow ≡ found s s.current)
      × ((s'.current ≡ s.current) × (s'.new_ctx ≡ 0))
unfolding shadow_state_for_current_ctx at_current initialise reset_for_new_ctx
    stub_context_state_reset ℕ_discrete
ready-current s small pending = ground arith

ready-other :
    (s : Stub) (j : ℕ)
    → (s.new_ctx ≡ 0) ⊎ (s.new_ctx ≡ s.current)
    → j ≢ s.current
    → (shadow_state_for_current_ctx s).contexts j ≡ s.contexts j
unfolding shadow_state_for_current_ctx at_current initialise reset_for_new_ctx
    stub_context_state_reset ℕ_discrete
ready-other s j pending other = ground arith

-- What is found in a context depends on its own entry, where the pending context is another.
found-other :
    (s s' : Stub) (j : ℕ)
    → (s.new_ctx ≡ 0) ⊎ (s.new_ctx ≡ s.current)
    → j ≢ s.current
    → s'.new_ctx ≡ 0
    → (s'.contexts j).shadow ≡ (s.contexts j).shadow
    → found s' j ≡ found s j
found-other s s' j pending other quiet e = ground arith

found-marked :
    (s s' : Stub) (j : ℕ)
    → s.new_ctx ≡ s'.new_ctx
    → (s.contexts j).shadow ≡ (s'.contexts j).shadow
    → found s j ≡ found s' j
found-marked s s' j quiet e = ground arith

found-initialised :
    (s : Stub) (j : ℕ)
    → s.new_ctx ≡ 0
    → (s.contexts j).shadow.initialised ≡ true
    → found s j ≡ (s.contexts j).shadow
found-initialised s j quiet e = ground arith

module _ (driver : Driver) where
  open driver use {State, get, exec, accepts, effect, elsewhere, redundant}

  -- The call of a setter, once its shadow is at hand as the context of the outcome.
  stored-IsSynced :
      (c : Call) (w : World driver) (s : Stub) (o : Bool × StubContext)
      → s.current ≡ w.stub.current
      → s.new_ctx ≡ 0
      → ((j : ℕ) → j ≢ w.stub.current → (s.contexts j).shadow ≡ (w.stub.contexts j).shadow)
      → accepts w.stub.current c w.full ≡ true
      → Agrees o.1.shadow (gl_effect c (get w.full w.stub.current))
      → (o.0 ≡ false
          → (is_setter c ≡ true)
            × (gl_effect c (get w.full w.stub.current) ≡ get w.full w.stub.current))
      → IsSynced driver w
      → IsSynced driver (record {
        stub = record s { contexts = update s.contexts s.current o.1 };
        live = w.live;
        through = if o.0 then exec w.stub.current c w.through else w.through;
        full = exec w.stub.current c w.full;
      })
  unfolding ℕ_discrete
  stored-IsSynced c w s o cur quiet others ok kept silent h =
      let k : ℕ = w.stub.current in
      let after : State = exec k c w.full in
      let s' : Stub = record s { contexts = update s.contexts s.current o.1 } in
      record {
        same = elim (Bool-cases o.0) [
          | inl e ↦ rw e (ap (exec k c) h.same)
          | inr e ↦
              let (setter, still) = silent e in
              rw e (h.same ∙ sym (redundant k c w.full ok setter still))
        ];
        pending = inl quiet;
        agrees = λ j small live. elim (ℕ_discrete j k) [
          | yes here ↦
              let stored : (s'.contexts j).shadow ≡ o.1.shadow = ground arith in
              let seen : found s' j ≡ o.1.shadow =
                found-initialised s' j quiet (rw stored kept.initialised) ∙ stored in
              let known : Agrees o.1.shadow (get after k) = rw (effect k c w.full ok) kept in
              subst (λ x. Agrees x (get after j)) (sym seen)
                (subst (λ i. Agrees o.1.shadow (get after i)) (sym here) known)
          | no there ↦ rw (elsewhere k j c w.full there) (
              subst (λ x. Agrees x (get w.full j))
                (sym
                  (found-other w.stub s' j h.pending there quiet (ground (arith, others j there))))
                (h.agrees j small live))
        ];
      }

  -- A setter other than `glEnable` and `glDisable`.
  pub setter-IsSynced :
      (c : Call) (w : World driver)
      → w.stub.current < max_contexts
      → w.live w.stub.current ≡ true
      → IsWellNamed c
      → accepts w.stub.current c w.full ≡ true
      → IsSynced driver w
      → let r = call_in_current c (shadow_state_for_current_ctx w.stub) in
        IsSynced driver (record {
          stub = r.1;
          live = w.live;
          through = if r.0 then exec w.stub.current c w.through else w.through;
          full = exec w.stub.current c w.full;
        })
  unfolding call_in_current
  setter-IsSynced c w small live named ok h =
      let s : Stub = shadow_state_for_current_ctx w.stub in
      let x : StubContext = s.contexts s.current in
      let (seen, quiet) = ready-current w.stub small h.pending in
      let agreed : Agrees x.shadow (get w.full w.stub.current) =
        subst (λ y. Agrees y (get w.full w.stub.current)) (sym seen)
          (h.agrees w.stub.current small live) in
      let sound = stub_call-Sound c x (get w.full w.stub.current) named agreed in
      stored-IsSynced c w s (stub_call c x) quiet.0 quiet.1
        (λ j other. ap (λ y. y.shadow) (ready-other w.stub j h.pending other)) ok sound.0 sound.1 h

  pub enable-IsSynced :
      (on : Bool) (e : ℕ) (w : World driver)
      → w.stub.current < max_contexts
      → w.live w.stub.current ≡ true
      → accepts w.stub.current (Gl.enable on e) w.full ≡ true
      → IsSynced driver w
      → let r = gl_call (Gl.enable on e) w.stub in
        IsSynced driver (record {
          stub = r.1;
          live = w.live;
          through = if r.0 then exec w.stub.current (Gl.enable on e) w.through else w.through;
          full = exec w.stub.current (Gl.enable on e) w.full;
        })
  unfolding gl_call at_current mark_restart ℕ_discrete
  enable-IsSynced on e w small live ok h =
      let marked : Stub = at_current (mark_restart on e) w.stub in
      let s : Stub = shadow_state_for_current_ctx marked in
      let x : StubContext = s.contexts s.current in
      let (seen, quiet) = ready-current marked small h.pending in
      let same : (marked.contexts w.stub.current).shadow ≡ (w.stub.contexts w.stub.current).shadow =
        ground arith in
      let agreed : Agrees x.shadow (get w.full w.stub.current) =
        subst (λ y. Agrees y (get w.full w.stub.current))
          (sym (seen ∙ found-marked marked w.stub w.stub.current refl same))
          (h.agrees w.stub.current small live) in
      let sound = store_cap-Sound x (get w.full w.stub.current) agreed on e in
      stored-IsSynced (Gl.enable on e) w s (store_cap on (shadow_cap_slot e) x) quiet.0 quiet.1
        (λ j other. ap (λ y. y.shadow) (ready-other marked j h.pending other) ∙ ground arith) ok
        sound.0 sound.1 h
