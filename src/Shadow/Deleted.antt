-- ===== src/Shadow/Deleted.antt =====
-- The step of a delete.
use mathlib.Core.Path.{subst}
use webos_bridge_64to.Common.{ℕ, ◌<◌, ◌≡◌, ◌≢◌, ◌⊎◌, sym, ap, inl, inr, true, arith, ℕ_discrete}
use webos_bridge_64to.Shadow.State.{StubShadowState, shadow_state_init}
use webos_bridge_64to.Shadow.Gl.{Call, Driver, GlState, gl_effect}
use webos_bridge_64to.Shadow.Contexts.{Stub, in_all_contexts, max_contexts}
use webos_bridge_64to.Shadow.Agree.{Agrees}
use webos_bridge_64to.Shadow.Switch.{IsLocal, IsSynced, World, found}

-- Where a shadow is in use it is changed, and where it is not it stays so.
found-cases :
    (f : StubShadowState → StubShadowState)
    → ((s : StubShadowState) → (f s).initialised ≡ s.initialised)
    → (s : Stub) (j : ℕ) → j < max_contexts
    → ((found s j ≡ shadow_state_init) × (found (in_all_contexts f s) j ≡ shadow_state_init))
      ⊎ ((found s j ≡ (s.contexts j).shadow)
          × (found (in_all_contexts f s) j ≡ f (s.contexts j).shadow))
unfolding in_all_contexts
found-cases f kept s j small = ground (arith, kept (s.contexts j).shadow)

module _ (driver : Driver) where
  open driver use {State, get, exec, accepts, effect, elsewhere}

  -- A shadow after a call: of the current context, or of another.
  pub after_call :
      (k j : ℕ) (c : Call) (d : State) (s : StubShadowState)
      → accepts k c d ≡ true
      → (j ≡ k → Agrees s (gl_effect c (get d k)))
      → (j ≢ k → Agrees s (get d j))
      → Agrees s (get (exec k c d) j)
  after_call k j c d s ok here there = elim (ℕ_discrete j k) [
    | yes e ↦ subst (λ i. Agrees s (get (exec k c d) i)) (sym e) (rw (effect k c d ok) (here e))
    | no ne ↦ rw (elsewhere k j c d ne) (there ne)
  ]

  -- A call that changes all shadows by `f`, and is always sent.
  pub spread-IsSynced :
      (c : Call) (f : StubShadowState → StubShadowState)
      → ((s : StubShadowState) → (f s).initialised ≡ s.initialised)
      → f shadow_state_init ≡ shadow_state_init
      → ((s : StubShadowState) (g : GlState) → Agrees s g → Agrees (f s) (gl_effect c g))
      → ((s : StubShadowState) (g : GlState) → IsLocal c s → Agrees s g → Agrees (f s) g)
      → (w : World driver) → accepts w.stub.current c w.full ≡ true
      → ((j : ℕ)
          → j < max_contexts
          → w.live j ≡ true
          → j ≢ w.stub.current
          → IsLocal c (w.stub.contexts j).shadow)
      → IsSynced driver w
      → IsSynced driver (record {
        stub = in_all_contexts f w.stub;
        live = w.live;
        through = exec w.stub.current c w.through;
        full = exec w.stub.current c w.full;
      })
  unfolding in_all_contexts
  spread-IsSynced c f kept still here there w ok local h =
      let k : ℕ = w.stub.current in
      let now : Stub = in_all_contexts f w.stub in
      record {
        same = ap (exec k c) h.same;
        pending = h.pending;
        agrees = λ j small live.
            let old : Agrees (found w.stub j) (get w.full j) = h.agrees j small live in
            elim (found-cases f kept w.stub j small) [
              | inl blank ↦
                  let (was, is) = blank in
                  let start : Agrees shadow_state_init (get w.full j) =
                    subst (λ s. Agrees s (get w.full j)) was old in
                  subst (λ s. Agrees s (get (exec k c w.full) j)) (sym is)
                    (after_call k j c w.full shadow_state_init ok
                      (λ e.
                        subst (λ s. Agrees s (gl_effect c (get w.full k))) still
                          (here shadow_state_init (get w.full k)
                            (subst (λ i. Agrees shadow_state_init (get w.full i)) e start)))
                      (λ ne. start))
              | inr used ↦
                  let (was, is) = used in
                  let s : StubShadowState = (w.stub.contexts j).shadow in
                  let start : Agrees s (get w.full j) =
                    subst (λ x. Agrees x (get w.full j)) was old in
                  subst (λ x. Agrees x (get (exec k c w.full) j)) (sym is)
                    (after_call k j c w.full (f s) ok
                      (λ e. here s (get w.full k) (subst (λ i. Agrees s (get w.full i)) e start))
                      (λ ne. there s (get w.full j) (local j small live ne) start))
            ];
      }
