-- ===== src/Shadow/Agree.antt =====
-- The relation between the shadow of a context and the driver's state of it.
use webos_bridge_64to.Common.{ℕ, ◌+◌, ◌^◌, ◌<◌, ◌≡◌, ◌≢◌, refl, true, some, arith, ◌==◌}
use webos_bridge_64to.Shadow.State.{
  Box, StubShadowState, shadow_state_init, shadow_tex_slot, shadow_cap_slot, tex_array, gl_texture0,
  shadow_tex_invalid,
}
use webos_bridge_64to.Shadow.Gl.{GlState, gl_initial}

-- What the shadow holds is what the driver has, or stands for nothing.
pub record Agrees (s : StubShadowState) (g : GlState) : Type 0 where
  pub initialised : s.initialised ≡ true
  pub active_texture : g.active_texture ≡ s.active_texture
  pub unit : g.active_texture < 2 ^ 32
  pub texture :
      (target unit k i : ℕ)
      → unit < 2 ^ 32
      → shadow_tex_slot target unit ≡ some (k, i)
      → s.bound_texture k i ≢ shadow_tex_invalid
      → g.texture target unit ≡ s.bound_texture k i
  pub program : g.program ≡ s.program
  pub draw_fb : g.draw_fb ≡ s.draw_fb
  pub read_fb : g.read_fb ≡ s.read_fb
  pub vao : g.vao ≡ s.vao
  pub sampler : (u : ℕ) → u < 32 → g.sampler u ≡ s.sampler u
  pub viewport : s.viewport_valid ≡ true → g.viewport ≡ s.viewport
  pub scissor : s.scissor_valid ≡ true → g.scissor ≡ s.scissor
  pub color_mask : g.color_mask ≡ s.color_mask
  pub depth_func : g.depth_func ≡ s.depth_func
  pub depth_mask : g.depth_mask ≡ s.depth_mask
  pub front_face : g.front_face ≡ s.front_face
  pub blend_eq_rgb : g.blend_eq_rgb ≡ s.blend_eq_rgb
  pub blend_eq_alpha : g.blend_eq_alpha ≡ s.blend_eq_alpha
  pub blend_src_rgb : g.blend_src_rgb ≡ s.blend_src_rgb
  pub blend_dst_rgb : g.blend_dst_rgb ≡ s.blend_dst_rgb
  pub blend_src_alpha : g.blend_src_alpha ≡ s.blend_src_alpha
  pub blend_dst_alpha : g.blend_dst_alpha ≡ s.blend_dst_alpha
  pub cap : (e i : ℕ) → shadow_cap_slot e ≡ some i → g.cap e ≡ s.cap i

-- A slot belongs to one target and one unit, and the field of a capability to one capability.
pub tex_array-injective : (t t' k : ℕ) → tex_array t ≡ some k → tex_array t' ≡ some k → t ≡ t'
unfolding tex_array
tex_array-injective t t' k h h' = ground arith

pub tex_slot-place :
    (target unit k i : ℕ)
    → unit < 2 ^ 32
    → shadow_tex_slot target unit ≡ some (k, i)
    → (tex_array target ≡ some k) × ((i < 32) × (unit ≡ gl_texture0 + i))
unfolding shadow_tex_slot
tex_slot-place target unit k i small h = ground arith

pub cap_slot-injective :
    (e e' i : ℕ) → shadow_cap_slot e ≡ some i → shadow_cap_slot e' ≡ some i → e ≡ e'
unfolding shadow_cap_slot
cap_slot-injective e e' i h h' = ground arith

pub cap_slot-dither : (e i : ℕ) → shadow_cap_slot e ≡ some i → (e == 3024) ≡ (i == 5)
unfolding shadow_cap_slot
cap_slot-dither e i h = ground arith

pub init-Agrees : (box : Box) → Agrees shadow_state_init (gl_initial box)
unfolding shadow_state_init
init-Agrees box = record {
  initialised = refl;
  active_texture = refl;
  unit = omega arith;
  texture = λ target unit k i u e live. refl;
  program = refl;
  draw_fb = refl;
  read_fb = refl;
  vao = refl;
  sampler = λ u uu. refl;
  viewport = λ v. ground arith;
  scissor = λ v. ground arith;
  color_mask = refl;
  depth_func = refl;
  depth_mask = refl;
  front_face = refl;
  blend_eq_rgb = refl;
  blend_eq_alpha = refl;
  blend_src_rgb = refl;
  blend_dst_rgb = refl;
  blend_src_alpha = refl;
  blend_dst_alpha = refl;
  cap = cap_slot-dither;
}
