-- ===== src/Shadow/Elide.antt =====
-- A run of calls in one context: what the program asks for, and what the proxy is sent.
use mathlib.Core.Path.{subst}
use webos_bridge_64to.Common.{
  ℕ, ◌<◌, ◌^◌, ◌≡◌, ◌≢◌, refl, sym, inl, inr, true, List, [], ◌∷◌, arith, Bool-cases, if◌then◌else◌,
}
use webos_bridge_64to.Shadow.State.{StubContext, shadow_tex_invalid}
use webos_bridge_64to.Shadow.Gl
use webos_bridge_64to.Shadow.Gl.{
  Call, Driver, GlState, active_texture, bind_texture, gl_effect, is_setter, stub_call,
}
use webos_bridge_64to.Shadow.Agree.{Agrees}
use webos_bridge_64to.Shadow.Kept.{Sound}
use webos_bridge_64to.Shadow.Kept.Values
use webos_bridge_64to.Shadow.Kept.Bindings
use webos_bridge_64to.Shadow.Kept.Textures
use webos_bridge_64to.Shadow.Kept.Drops

-- An enumerant is a `GLenum`, and no texture has the name that the shadow takes for none.
abbrev pub IsWellNamed : Call → Type 0
IsWellNamed (active_texture t) = t < 2 ^ 32
IsWellNamed (bind_texture target t) = t ≢ shadow_tex_invalid
IsWellNamed call = Unit

-- Every call of the stub keeps the agreement, and leaves out only what changes nothing.
pub stub_call-Sound :
    (call : Call) (c : StubContext) (g : GlState)
    → IsWellNamed call
    → Agrees c.shadow g
    → Sound call c g
unfolding stub_call gl_effect
stub_call-Sound (active_texture t) c g ok h = Bindings.active_texture-Sound c g h t ok
stub_call-Sound (bind_texture target t) c g ok h = Textures.bind_texture-Sound c g h target t ok
stub_call-Sound (Gl.use_program p) c g ok h = Values.use_program-Sound c g h p
stub_call-Sound (Gl.bind_framebuffer t f) c g ok h = Bindings.bind_framebuffer-Sound c g h t f
stub_call-Sound (Gl.bind_vertex_array v) c g ok h = Values.bind_vertex_array-Sound c g h v
stub_call-Sound (Gl.bind_sampler u t) c g ok h = Bindings.bind_sampler-Sound c g h u t
stub_call-Sound (Gl.viewport b) c g ok h = Values.viewport-Sound c g h b
stub_call-Sound (Gl.scissor b) c g ok h = Values.scissor-Sound c g h b
stub_call-Sound (Gl.enable on e) c g ok h = Bindings.enable-Sound c g h on e
stub_call-Sound (Gl.front_face m) c g ok h = Values.front_face-Sound c g h m
stub_call-Sound (Gl.blend_equation m) c g ok h = Values.blend_equation-Sound c g h m
stub_call-Sound (Gl.blend_equation_separate m n) c g ok h =
    Values.blend_equation_separate-Sound c g h m n
stub_call-Sound (Gl.blend_func m n) c g ok h = Values.blend_func-Sound c g h m n
stub_call-Sound (Gl.blend_func_separate m n o p) c g ok h =
    Values.blend_func_separate-Sound c g h m n o p
stub_call-Sound (Gl.depth_func f) c g ok h = Values.depth_func-Sound c g h f
stub_call-Sound (Gl.depth_mask b) c g ok h = Values.depth_mask-Sound c g h b
stub_call-Sound (Gl.color_mask m) c g ok h = Values.color_mask-Sound c g h m
stub_call-Sound (Gl.delete_textures ns) c g ok h = Drops.delete_textures-Sound c g h ns
stub_call-Sound (Gl.delete_framebuffers ns) c g ok h = Drops.delete_framebuffers-Sound c g h ns
stub_call-Sound (Gl.delete_vertex_arrays ns) c g ok h = Drops.delete_vertex_arrays-Sound c g h ns
stub_call-Sound (Gl.delete_samplers ns) c g ok h = Drops.delete_samplers-Sound c g h ns
stub_call-Sound (Gl.untracked n) c g ok h = (h, λ no. ground arith)

module _ (driver : Driver) (k : ℕ) where
  open driver use {State, get, exec, accepts, effect, redundant}

  -- All calls on the driver, one after the other.
  abbrev pub run_all : List Call → State → State
  run_all [] d = d
  run_all (call ∷ calls) d = run_all calls (exec k call d)

  -- Through the stub: the calls that it sends, on the driver.
  abbrev pub step : Call → StubContext → State → StubContext × State
  step call c d = let o = stub_call call c in (o.1, if o.0 then exec k call d else d)

  abbrev pub run_stub : List Call → StubContext → State → StubContext × State
  run_stub [] c d = (c, d)
  run_stub (call ∷ calls) c d = let r = step call c d in run_stub calls r.0 r.1

  -- The driver accepts each call where the program makes it.
  abbrev pub AllAccepted : List Call → State → Type 0
  AllAccepted [] d = Unit
  AllAccepted (call ∷ calls) d =
      IsWellNamed call × ((accepts k call d ≡ true) × AllAccepted calls (exec k call d))

  pub step-same :
      (call : Call) (c : StubContext) (d : State)
      → IsWellNamed call
      → accepts k call d ≡ true
      → Agrees c.shadow (get d k)
      → let r = step call c d in (r.1 ≡ exec k call d) × Agrees r.0.shadow (get (exec k call d) k)
  step-same call c d named ok h =
      let (kept, quiet) = stub_call-Sound call c (get d k) named h in
      let after : Agrees (stub_call call c).1.shadow (get (exec k call d) k) =
        rw (effect k call d ok) kept in
      elim (Bool-cases (stub_call call c).0) [
        | inl e ↦ (rw e refl, after)
        | inr e ↦
            let (setter, same) = quiet e in (rw e (sym (redundant k call d ok setter same)), after)
      ]

  -- Over any run of calls that the driver accepts, from a context whose shadow agrees with the driver,
  -- the calls that the stub sends leave the driver in the state in which all calls would leave it, and
  -- the shadow agrees with it again. A setter that the driver accepts and that leaves every tracked
  -- value as it is must change nothing in the driver.
  pub elision_refines :
      (calls : List Call) (c : StubContext) (d : State)
      → Agrees c.shadow (get d k)
      → AllAccepted calls d
      → let r = run_stub calls c d in
        (r.1 ≡ run_all calls d) × Agrees r.0.shadow (get (run_all calls d) k)
  elision_refines [] c d h ok = (refl, h)
  elision_refines (call ∷ calls) c d h ok =
      let (named, granted) = ok in
      let (accepted, rest) = granted in
      let (same, agrees) = step-same call c d named accepted h in
      subst
        (λ x.
          let r = run_stub calls (stub_call call c).1 x in
          (r.1 ≡ run_all calls (exec k call d))
          × Agrees r.0.shadow (get (run_all calls (exec k call d)) k))
        (sym same) (elision_refines calls (stub_call call c).1 (exec k call d) agrees rest)
