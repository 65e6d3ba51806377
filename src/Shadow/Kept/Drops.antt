-- ===== src/Shadow/Kept/Drops.antt =====
-- The deletes: the loops over the names, and the deleted names in the shadow and in the driver.
use webos_bridge_64to.Common.{ℕ, inl, inr, List, [], ◌∷◌, arith, ◌==◌, Bool-cases}
use webos_bridge_64to.Shadow.State.{StubContext, StubShadowState}
use webos_bridge_64to.Shadow.Deletes.{
  forget, invalidate_all, shadow_invalidate_texture, shadow_invalidate_fbo, shadow_invalidate_vao,
  shadow_invalidate_sampler,
}
use webos_bridge_64to.Shadow.Gl
use webos_bridge_64to.Shadow.Gl.{
  GlState, gl_effect, stub_call, drop_all, drop_texture, drop_framebuffer, drop_vertex_array,
  drop_sampler,
}
use webos_bridge_64to.Shadow.Agree.{Agrees, tex_slot-place}
use webos_bridge_64to.Shadow.Kept.{Sound}

-- A loop keeps what its step keeps.
pub drop_all-Agrees :
    (inv : ℕ → StubShadowState → StubShadowState) (drop : ℕ → GlState → GlState)
    → ((n : ℕ) (s : StubShadowState) (g : GlState) → Agrees s g → Agrees (inv n s) (drop n g))
    → (ns : List ℕ) (s : StubShadowState) (g : GlState) → Agrees s g
    → Agrees (invalidate_all inv ns s) (drop_all drop ns g)
unfolding invalidate_all
drop_all-Agrees inv drop step [] s g h = h
drop_all-Agrees inv drop step (n ∷ ns) s g h =
    drop_all-Agrees inv drop step ns (inv n s) (drop n g) (step n s g h)

pub drop_framebuffer-Agrees :
    (n : ℕ) (s : StubShadowState) (g : GlState)
    → Agrees s g
    → Agrees (shadow_invalidate_fbo n s) (drop_framebuffer n g)
unfolding shadow_invalidate_fbo forget
drop_framebuffer-Agrees n s g h = elim (Bool-cases (n == 0)) [
  | inl e ↦ rw e (grind arith)
  | inr e ↦ rw e (grind arith)
]

pub drop_vertex_array-Agrees :
    (n : ℕ) (s : StubShadowState) (g : GlState)
    → Agrees s g
    → Agrees (shadow_invalidate_vao n s) (drop_vertex_array n g)
unfolding shadow_invalidate_vao forget
drop_vertex_array-Agrees n s g h = elim (Bool-cases (n == 0)) [
  | inl e ↦ rw e (grind arith)
  | inr e ↦ rw e (grind arith)
]

pub drop_sampler-Agrees :
    (n : ℕ) (s : StubShadowState) (g : GlState)
    → Agrees s g
    → Agrees (shadow_invalidate_sampler n s) (drop_sampler n g)
unfolding shadow_invalidate_sampler forget
drop_sampler-Agrees n s g h = elim (Bool-cases (n == 0)) [
  | inl e ↦ rw e (grind arith)
  | inr e ↦ rw e (grind arith)
]

pub drop_texture-Agrees :
    (n : ℕ) (s : StubShadowState) (g : GlState)
    → Agrees s g
    → Agrees (shadow_invalidate_texture n s) (drop_texture n g)
unfolding shadow_invalidate_texture forget
drop_texture-Agrees n s g h = elim (Bool-cases (n == 0)) [
  | inl e ↦ rw e (grind arith)
  | inr e ↦ rw e (grind (arith, tex_slot-place))
]

module _ (c : StubContext) (g : GlState) (h : Agrees c.shadow g) where
  pub delete_textures-Sound : (ns : List ℕ) → Sound (Gl.delete_textures ns) c g
  unfolding stub_call gl_effect
  delete_textures-Sound ns = (
    drop_all-Agrees shadow_invalidate_texture drop_texture drop_texture-Agrees ns c.shadow g h,
    λ no. ground arith,
  )

  pub delete_framebuffers-Sound : (ns : List ℕ) → Sound (Gl.delete_framebuffers ns) c g
  unfolding stub_call gl_effect
  delete_framebuffers-Sound ns = (
    drop_all-Agrees shadow_invalidate_fbo drop_framebuffer drop_framebuffer-Agrees ns c.shadow g h,
    λ no. ground arith,
  )

  pub delete_vertex_arrays-Sound : (ns : List ℕ) → Sound (Gl.delete_vertex_arrays ns) c g
  unfolding stub_call gl_effect
  delete_vertex_arrays-Sound ns = (
    drop_all-Agrees shadow_invalidate_vao drop_vertex_array drop_vertex_array-Agrees ns c.shadow g
        h,
    λ no. ground arith,
  )

  pub delete_samplers-Sound : (ns : List ℕ) → Sound (Gl.delete_samplers ns) c g
  unfolding stub_call gl_effect
  delete_samplers-Sound ns = (
    drop_all-Agrees shadow_invalidate_sampler drop_sampler drop_sampler-Agrees ns c.shadow g h,
    λ no. ground arith,
  )
