-- ===== src/Calls/Send/State.antt =====
-- stub/gles2_stub.c: how the fixed-function state is sent.
use webos_bridge_64to.Common.{ℕ, [], ◌∷◌}
use webos_bridge_64to.Calls.Args.{Command, u32, i32, f32}
use webos_bridge_64to.Calls.Opcodes.{
  op_gl_viewport, op_gl_scissor, op_gl_enable, op_gl_disable, op_gl_cull_face, op_gl_front_face,
  op_gl_line_width, op_gl_polygon_offset, op_gl_sample_coverage, op_gl_hint, op_gl_blend_color,
  op_gl_blend_equation, op_gl_blend_equation_separate, op_gl_blend_func, op_gl_blend_func_separate,
  op_gl_depth_func, op_gl_depth_mask, op_gl_depth_rangef, op_gl_color_mask, op_gl_stencil_func,
  op_gl_stencil_func_separate, op_gl_stencil_mask, op_gl_stencil_mask_separate, op_gl_stencil_op,
  op_gl_stencil_op_separate, op_gl_clear, op_gl_clear_color, op_gl_clear_depthf,
  op_gl_clear_stencil, op_gl_flush,
}

unfoldable pub send_gl_viewport : ℕ → ℕ → ℕ → ℕ → Command
send_gl_viewport x y w h = record {
  opcode = op_gl_viewport;
  args = (i32, x) ∷ (i32, y) ∷ (i32, w) ∷ (i32, h) ∷ [];
}

unfoldable pub send_gl_scissor : ℕ → ℕ → ℕ → ℕ → Command
send_gl_scissor x y width height = record {
  opcode = op_gl_scissor;
  args = (i32, x) ∷ (i32, y) ∷ (i32, width) ∷ (i32, height) ∷ [];
}

unfoldable pub send_gl_enable : ℕ → Command
send_gl_enable cap = record { opcode = op_gl_enable; args = (u32, cap) ∷ [] }

unfoldable pub send_gl_disable : ℕ → Command
send_gl_disable cap = record { opcode = op_gl_disable; args = (u32, cap) ∷ [] }

unfoldable pub send_gl_cull_face : ℕ → Command
send_gl_cull_face mode = record { opcode = op_gl_cull_face; args = (u32, mode) ∷ [] }

unfoldable pub send_gl_front_face : ℕ → Command
send_gl_front_face mode = record { opcode = op_gl_front_face; args = (u32, mode) ∷ [] }

unfoldable pub send_gl_line_width : ℕ → Command
send_gl_line_width width = record { opcode = op_gl_line_width; args = (f32, width) ∷ [] }

unfoldable pub send_gl_polygon_offset : ℕ → ℕ → Command
send_gl_polygon_offset factor units = record {
  opcode = op_gl_polygon_offset;
  args = (f32, factor) ∷ (f32, units) ∷ [];
}

unfoldable pub send_gl_sample_coverage : ℕ → ℕ → Command
send_gl_sample_coverage value invert = record {
  opcode = op_gl_sample_coverage;
  args = (f32, value) ∷ (u32, invert) ∷ [];
}

unfoldable pub send_gl_hint : ℕ → ℕ → Command
send_gl_hint target mode = record { opcode = op_gl_hint; args = (u32, target) ∷ (u32, mode) ∷ [] }

unfoldable pub send_gl_blend_color : ℕ → ℕ → ℕ → ℕ → Command
send_gl_blend_color r g b a = record {
  opcode = op_gl_blend_color;
  args = (f32, r) ∷ (f32, g) ∷ (f32, b) ∷ (f32, a) ∷ [];
}

unfoldable pub send_gl_blend_equation : ℕ → Command
send_gl_blend_equation mode = record { opcode = op_gl_blend_equation; args = (u32, mode) ∷ [] }

unfoldable pub send_gl_blend_equation_separate : ℕ → ℕ → Command
send_gl_blend_equation_separate mode_rgb mode_alpha = record {
  opcode = op_gl_blend_equation_separate;
  args = (u32, mode_rgb) ∷ (u32, mode_alpha) ∷ [];
}

unfoldable pub send_gl_blend_func : ℕ → ℕ → Command
send_gl_blend_func sfactor dfactor = record {
  opcode = op_gl_blend_func;
  args = (u32, sfactor) ∷ (u32, dfactor) ∷ [];
}

unfoldable pub send_gl_blend_func_separate : ℕ → ℕ → ℕ → ℕ → Command
send_gl_blend_func_separate src_rgb dst_rgb src_alpha dst_alpha = record {
  opcode = op_gl_blend_func_separate;
  args = (u32, src_rgb) ∷ (u32, dst_rgb) ∷ (u32, src_alpha) ∷ (u32, dst_alpha) ∷ [];
}

unfoldable pub send_gl_depth_func : ℕ → Command
send_gl_depth_func func = record { opcode = op_gl_depth_func; args = (u32, func) ∷ [] }

unfoldable pub send_gl_depth_mask : ℕ → Command
send_gl_depth_mask flag = record { opcode = op_gl_depth_mask; args = (u32, flag) ∷ [] }

unfoldable pub send_gl_depth_rangef : ℕ → ℕ → Command
send_gl_depth_rangef n f = record { opcode = op_gl_depth_rangef; args = (f32, n) ∷ (f32, f) ∷ [] }

unfoldable pub send_gl_color_mask : ℕ → ℕ → ℕ → ℕ → Command
send_gl_color_mask r g b a = record {
  opcode = op_gl_color_mask;
  args = (u32, r) ∷ (u32, g) ∷ (u32, b) ∷ (u32, a) ∷ [];
}

unfoldable pub send_gl_stencil_func : ℕ → ℕ → ℕ → Command
send_gl_stencil_func func ref_arg mask = record {
  opcode = op_gl_stencil_func;
  args = (u32, func) ∷ (i32, ref_arg) ∷ (u32, mask) ∷ [];
}

unfoldable pub send_gl_stencil_func_separate : ℕ → ℕ → ℕ → ℕ → Command
send_gl_stencil_func_separate face func ref_arg mask = record {
  opcode = op_gl_stencil_func_separate;
  args = (u32, face) ∷ (u32, func) ∷ (i32, ref_arg) ∷ (u32, mask) ∷ [];
}

unfoldable pub send_gl_stencil_mask : ℕ → Command
send_gl_stencil_mask mask = record { opcode = op_gl_stencil_mask; args = (u32, mask) ∷ [] }

unfoldable pub send_gl_stencil_mask_separate : ℕ → ℕ → Command
send_gl_stencil_mask_separate face mask = record {
  opcode = op_gl_stencil_mask_separate;
  args = (u32, face) ∷ (u32, mask) ∷ [];
}

unfoldable pub send_gl_stencil_op : ℕ → ℕ → ℕ → Command
send_gl_stencil_op fail zfail zpass = record {
  opcode = op_gl_stencil_op;
  args = (u32, fail) ∷ (u32, zfail) ∷ (u32, zpass) ∷ [];
}

unfoldable pub send_gl_stencil_op_separate : ℕ → ℕ → ℕ → ℕ → Command
send_gl_stencil_op_separate face sfail dpfail dppass = record {
  opcode = op_gl_stencil_op_separate;
  args = (u32, face) ∷ (u32, sfail) ∷ (u32, dpfail) ∷ (u32, dppass) ∷ [];
}

unfoldable pub send_gl_clear : ℕ → Command
send_gl_clear mask = record { opcode = op_gl_clear; args = (u32, mask) ∷ [] }

unfoldable pub send_gl_clear_color : ℕ → ℕ → ℕ → ℕ → Command
send_gl_clear_color r g b a = record {
  opcode = op_gl_clear_color;
  args = (f32, r) ∷ (f32, g) ∷ (f32, b) ∷ (f32, a) ∷ [];
}

unfoldable pub send_gl_clear_depthf : ℕ → Command
send_gl_clear_depthf d = record { opcode = op_gl_clear_depthf; args = (f32, d) ∷ [] }

unfoldable pub send_gl_clear_stencil : ℕ → Command
send_gl_clear_stencil s = record { opcode = op_gl_clear_stencil; args = (i32, s) ∷ [] }

unfoldable pub send_gl_flush : Command
send_gl_flush = record { opcode = op_gl_flush; args = [] }
