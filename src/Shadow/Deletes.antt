-- ===== src/Shadow/Deletes.antt =====
-- include/gles_util_stub.h: what deleting an object does to the shadow of one context.
use webos_bridge_64to.Common.{ℕ, List, [], ◌∷◌, ltb, ◌==◌, if◌then◌else◌}
use webos_bridge_64to.Shadow.State.{StubShadowState, max_texture_units, shadow_tex_invalid}

-- Loops over the units: a unit past the arrays is not reached.
unfoldable pub forget : ℕ → ℕ → ℕ → ℕ
forget name by bound = if bound == name then by else bound

unfoldable pub shadow_invalidate_texture : ℕ → StubShadowState → StubShadowState
shadow_invalidate_texture texture s = if texture == 0 then s else record s {
  bound_texture = λ k u.
      if ltb u max_texture_units
      then forget texture shadow_tex_invalid (s.bound_texture k u)
      else s.bound_texture k u;
}

unfoldable pub shadow_invalidate_fbo : ℕ → StubShadowState → StubShadowState
shadow_invalidate_fbo fbo s =
    if fbo == 0
    then s
    else record s { draw_fb = forget fbo 0 s.draw_fb; read_fb = forget fbo 0 s.read_fb }

unfoldable pub shadow_invalidate_vao : ℕ → StubShadowState → StubShadowState
shadow_invalidate_vao vao s = if vao == 0 then s else record s { vao = forget vao 0 s.vao }

unfoldable pub shadow_invalidate_sampler : ℕ → StubShadowState → StubShadowState
shadow_invalidate_sampler sampler s = if sampler == 0 then s else record s {
  sampler = λ u. if ltb u max_texture_units then forget sampler 0 (s.sampler u) else s.sampler u;
}

-- `for (i = 0; i < n; i++) shadow_invalidate_…(names[i])`
unfoldable pub invalidate_all :
    (ℕ → StubShadowState → StubShadowState) → List ℕ → StubShadowState → StubShadowState
invalidate_all invalidate [] s = s
invalidate_all invalidate (name ∷ names) s = invalidate_all invalidate names (invalidate name s)
