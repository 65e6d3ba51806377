-- ===== src/Calls/Handlers/State.antt =====
-- proxy/protocol/gles2.c: the handlers of the fixed-function state.
use webos_bridge_64to.Common.{[], ◌∷◌}
use webos_bridge_64to.Calls.Args.{Handler, u32, i32, f32, in_call}
use webos_bridge_64to.Calls.Api

unfoldable pub h_gl_viewport : Handler
h_gl_viewport = in_call (i32 ∷ i32 ∷ i32 ∷ i32 ∷ []) Api.gl_viewport

unfoldable pub h_gl_scissor : Handler
h_gl_scissor = in_call (i32 ∷ i32 ∷ i32 ∷ i32 ∷ []) Api.gl_scissor

unfoldable pub h_gl_enable : Handler
h_gl_enable = in_call (u32 ∷ []) Api.gl_enable

unfoldable pub h_gl_disable : Handler
h_gl_disable = in_call (u32 ∷ []) Api.gl_disable

unfoldable pub h_gl_cull_face : Handler
h_gl_cull_face = in_call (u32 ∷ []) Api.gl_cull_face

unfoldable pub h_gl_front_face : Handler
h_gl_front_face = in_call (u32 ∷ []) Api.gl_front_face

unfoldable pub h_gl_line_width : Handler
h_gl_line_width = in_call (f32 ∷ []) Api.gl_line_width

unfoldable pub h_gl_polygon_offset : Handler
h_gl_polygon_offset = in_call (f32 ∷ f32 ∷ []) Api.gl_polygon_offset

unfoldable pub h_gl_sample_coverage : Handler
h_gl_sample_coverage = in_call (f32 ∷ u32 ∷ []) Api.gl_sample_coverage

unfoldable pub h_gl_hint : Handler
h_gl_hint = in_call (u32 ∷ u32 ∷ []) Api.gl_hint

unfoldable pub h_gl_blend_color : Handler
h_gl_blend_color = in_call (f32 ∷ f32 ∷ f32 ∷ f32 ∷ []) Api.gl_blend_color

unfoldable pub h_gl_blend_equation : Handler
h_gl_blend_equation = in_call (u32 ∷ []) Api.gl_blend_equation

unfoldable pub h_gl_blend_equation_separate : Handler
h_gl_blend_equation_separate = in_call (u32 ∷ u32 ∷ []) Api.gl_blend_equation_separate

unfoldable pub h_gl_blend_func : Handler
h_gl_blend_func = in_call (u32 ∷ u32 ∷ []) Api.gl_blend_func

unfoldable pub h_gl_blend_func_separate : Handler
h_gl_blend_func_separate = in_call (u32 ∷ u32 ∷ u32 ∷ u32 ∷ []) Api.gl_blend_func_separate

unfoldable pub h_gl_depth_func : Handler
h_gl_depth_func = in_call (u32 ∷ []) Api.gl_depth_func

unfoldable pub h_gl_depth_mask : Handler
h_gl_depth_mask = in_call (u32 ∷ []) Api.gl_depth_mask

unfoldable pub h_gl_depth_rangef : Handler
h_gl_depth_rangef = in_call (f32 ∷ f32 ∷ []) Api.gl_depth_rangef

unfoldable pub h_gl_color_mask : Handler
h_gl_color_mask = in_call (u32 ∷ u32 ∷ u32 ∷ u32 ∷ []) Api.gl_color_mask

unfoldable pub h_gl_stencil_func : Handler
h_gl_stencil_func = in_call (u32 ∷ i32 ∷ u32 ∷ []) Api.gl_stencil_func

unfoldable pub h_gl_stencil_func_separate : Handler
h_gl_stencil_func_separate = in_call (u32 ∷ u32 ∷ i32 ∷ u32 ∷ []) Api.gl_stencil_func_separate

unfoldable pub h_gl_stencil_mask : Handler
h_gl_stencil_mask = in_call (u32 ∷ []) Api.gl_stencil_mask

unfoldable pub h_gl_stencil_mask_separate : Handler
h_gl_stencil_mask_separate = in_call (u32 ∷ u32 ∷ []) Api.gl_stencil_mask_separate

unfoldable pub h_gl_stencil_op : Handler
h_gl_stencil_op = in_call (u32 ∷ u32 ∷ u32 ∷ []) Api.gl_stencil_op

unfoldable pub h_gl_stencil_op_separate : Handler
h_gl_stencil_op_separate = in_call (u32 ∷ u32 ∷ u32 ∷ u32 ∷ []) Api.gl_stencil_op_separate

unfoldable pub h_gl_clear : Handler
h_gl_clear = in_call (u32 ∷ []) Api.gl_clear

unfoldable pub h_gl_clear_color : Handler
h_gl_clear_color = in_call (f32 ∷ f32 ∷ f32 ∷ f32 ∷ []) Api.gl_clear_color

unfoldable pub h_gl_clear_depthf : Handler
h_gl_clear_depthf = in_call (f32 ∷ []) Api.gl_clear_depthf

unfoldable pub h_gl_clear_stencil : Handler
h_gl_clear_stencil = in_call (i32 ∷ []) Api.gl_clear_stencil

unfoldable pub h_gl_flush : Handler
h_gl_flush = in_call ([]) Api.gl_flush
