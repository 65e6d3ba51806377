-- ===== src/Shadow/State.antt =====
-- include/gles_util_stub.h: `StubShadowState`, its start values and its slots.
-- A GLint stands for its 32-bit pattern. The depth range, of floating point, is left out.
use webos_bridge_64to.Common.{
  ℕ, ◌+◌, ◌-◌, ◌%◌, ◌^◌, Bool, true, false, Option, none, some, ltb, ◌==◌, if◌then◌else◌,
}

-- The rectangle of `glViewport` and of `glScissor`.
pub record Box : Type 0 where
  pub x : ℕ
  pub y : ℕ
  pub w : ℕ
  pub h : ℕ

-- The four flags of `glColorMask`.
pub record Mask : Type 0 where
  pub r : Bool
  pub g : Bool
  pub b : Bool
  pub a : Bool

-- `bound_texture` holds the arrays for 2D, 2D_ARRAY, CUBE_MAP and 3D textures, in this order, and
-- `cap` the nine fields `cap_*`, in the order of `shadow_cap_slot`.
pub record StubShadowState : Type 0 where
  pub initialised : Bool
  pub active_texture : ℕ
  pub bound_texture : ℕ → ℕ → ℕ
  pub program : ℕ
  pub draw_fb : ℕ
  pub read_fb : ℕ
  pub vao : ℕ
  pub sampler : ℕ → ℕ
  pub viewport : Box
  pub viewport_valid : Bool
  pub scissor : Box
  pub scissor_valid : Bool
  pub color_mask : Mask
  pub depth_func : ℕ
  pub depth_mask : Bool
  pub front_face : ℕ
  pub blend_eq_rgb : ℕ
  pub blend_eq_alpha : ℕ
  pub blend_src_rgb : ℕ
  pub blend_dst_rgb : ℕ
  pub blend_src_alpha : ℕ
  pub blend_dst_alpha : ℕ
  pub cap : ℕ → Bool

-- What the stub keeps of one context beside its buffers: the shadow, and two fields of
-- `GLContextState`.
pub record StubContext : Type 0 where
  pub shadow : StubShadowState
  pub current_vao : ℕ
  pub primitive_restart : Bool

abbrev pub max_texture_units : ℕ
max_texture_units = 32

abbrev pub gl_texture0 : ℕ
gl_texture0 = 33984

abbrev pub shadow_tex_invalid : ℕ
shadow_tex_invalid = 4294967295

abbrev pub gl_less : ℕ
gl_less = 513

abbrev pub gl_ccw : ℕ
gl_ccw = 2305

abbrev pub gl_func_add : ℕ
gl_func_add = 32774

abbrev pub gl_one : ℕ
gl_one = 1

abbrev pub gl_zero : ℕ
gl_zero = 0

abbrev pub zero_box : Box
zero_box = record { x = 0; y = 0; w = 0; h = 0 }

abbrev pub full_mask : Mask
full_mask = record { r = true; g = true; b = true; a = true }

abbrev pub no_mask : Mask
no_mask = record { r = false; g = false; b = false; a = false }

-- After `memset`.
abbrev pub zeroed : StubShadowState
zeroed = record {
  initialised = false;
  active_texture = 0;
  bound_texture = λ k u. 0;
  program = 0;
  draw_fb = 0;
  read_fb = 0;
  vao = 0;
  sampler = λ u. 0;
  viewport = zero_box;
  viewport_valid = false;
  scissor = zero_box;
  scissor_valid = false;
  color_mask = no_mask;
  depth_func = 0;
  depth_mask = false;
  front_face = 0;
  blend_eq_rgb = 0;
  blend_eq_alpha = 0;
  blend_src_rgb = 0;
  blend_dst_rgb = 0;
  blend_src_alpha = 0;
  blend_dst_alpha = 0;
  cap = λ i. false;
}

-- `cap_dither` is the sixth.
unfoldable pub shadow_state_init : StubShadowState
shadow_state_init = record zeroed {
  active_texture = gl_texture0;
  color_mask = full_mask;
  depth_func = gl_less;
  depth_mask = true;
  front_face = gl_ccw;
  blend_eq_rgb = gl_func_add;
  blend_eq_alpha = gl_func_add;
  blend_src_rgb = gl_one;
  blend_src_alpha = gl_one;
  blend_dst_rgb = gl_zero;
  blend_dst_alpha = gl_zero;
  cap = λ i. i == 5;
  initialised = true;
}

-- The array for a target, if there is one.
unfoldable pub tex_array : ℕ → Option ℕ
tex_array target =
    if target == 3553
    then some 0
    else if target == 35866
    then some 1
    else if target == 34067
    then some 2
    else if target == 32879
    then some 3
    else none

-- `none` stands for NULL; the difference is one of `uint32_t`.
unfoldable pub shadow_tex_slot : ℕ → ℕ → Option (ℕ × ℕ)
shadow_tex_slot target unit =
    let idx = (unit + (2 ^ 32 - gl_texture0)) % 2 ^ 32 in
    if ltb idx max_texture_units
    then elim (tex_array target) [ none ↦ none | some k ↦ some (k, idx) ]
    else none

unfoldable pub shadow_cap_slot : ℕ → Option ℕ
shadow_cap_slot cap =
    if cap == 3042
    then some 0
    else if cap == 2929
    then some 1
    else if cap == 2884
    then some 2
    else if cap == 3089
    then some 3
    else if cap == 2960
    then some 4
    else if cap == 3024
    then some 5
    else if cap == 32823
    then some 6
    else if cap == 32926
    then some 7
    else if cap == 32928
    then some 8
    else none
