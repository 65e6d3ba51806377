-- ===== src/Shadow/Gl.antt =====
-- The documented effect of the calls on the part of the driver's state that the shadow stands for, and
-- the driver as a record of operations and laws: it is not in the repository.
use webos_bridge_64to.Common.{
  ℕ, ◌≡◌, ◌≢◌, Bool, true, false, List, [], ◌∷◌, ◌==◌, if◌then◌else◌, update,
}
use webos_bridge_64to.Shadow.State.{
  Box, Mask, StubContext, gl_texture0, gl_less, gl_ccw, gl_func_add, gl_one, gl_zero, full_mask,
}
use webos_bridge_64to.Shadow.Deletes.{
  forget, invalidate_all, shadow_invalidate_texture, shadow_invalidate_fbo, shadow_invalidate_vao,
  shadow_invalidate_sampler,
}
use webos_bridge_64to.Shadow.Calls.{
  Outcome, sent, gl_active_texture, gl_bind_texture, gl_use_program, gl_bind_framebuffer,
  gl_framebuffer, gl_draw_framebuffer, gl_read_framebuffer, gl_bind_vertex_array, gl_bind_sampler,
  gl_viewport, gl_scissor, set_cap, gl_front_face, gl_blend_equation, gl_blend_equation_separate,
  gl_blend_func, gl_blend_func_separate, gl_depth_func, gl_depth_mask, gl_color_mask,
}

-- The state variables of one context, by their enumerants: `texture target unit`, `cap capability`.
pub record GlState : Type 0 where
  pub active_texture : ℕ
  pub texture : ℕ → ℕ → ℕ
  pub program : ℕ
  pub draw_fb : ℕ
  pub read_fb : ℕ
  pub vao : ℕ
  pub sampler : ℕ → ℕ
  pub viewport : Box
  pub scissor : Box
  pub color_mask : Mask
  pub depth_func : ℕ
  pub depth_mask : Bool
  pub front_face : ℕ
  pub blend_eq_rgb : ℕ
  pub blend_eq_alpha : ℕ
  pub blend_src_rgb : ℕ
  pub blend_dst_rgb : ℕ
  pub blend_src_alpha : ℕ
  pub blend_dst_alpha : ℕ
  pub cap : ℕ → Bool

-- `untracked` is any call that sets none of these variables, such as a draw.
pub data Call : Type 0 where
  active_texture : ℕ → Call
  bind_texture : ℕ → ℕ → Call
  use_program : ℕ → Call
  bind_framebuffer : ℕ → ℕ → Call
  bind_vertex_array : ℕ → Call
  bind_sampler : ℕ → ℕ → Call
  viewport : Box → Call
  scissor : Box → Call
  enable : Bool → ℕ → Call
  front_face : ℕ → Call
  blend_equation : ℕ → Call
  blend_equation_separate : ℕ → ℕ → Call
  blend_func : ℕ → ℕ → Call
  blend_func_separate : ℕ → ℕ → ℕ → ℕ → Call
  depth_func : ℕ → Call
  depth_mask : Bool → Call
  color_mask : Mask → Call
  delete_textures : List ℕ → Call
  delete_framebuffers : List ℕ → Call
  delete_vertex_arrays : List ℕ → Call
  delete_samplers : List ℕ → Call
  untracked : ℕ → Call

-- The stub's function for each call, in the context that is current.
unfoldable pub stub_call : Call → StubContext → Outcome
stub_call (active_texture t) c = gl_active_texture t c
stub_call (bind_texture target t) c = gl_bind_texture target t c
stub_call (use_program p) c = gl_use_program p c
stub_call (bind_framebuffer target f) c = gl_bind_framebuffer target f c
stub_call (bind_vertex_array v) c = gl_bind_vertex_array v c
stub_call (bind_sampler u s) c = gl_bind_sampler u s c
stub_call (viewport b) c = gl_viewport b c
stub_call (scissor b) c = gl_scissor b c
stub_call (enable on cap) c = set_cap on cap c
stub_call (front_face m) c = gl_front_face m c
stub_call (blend_equation m) c = gl_blend_equation m c
stub_call (blend_equation_separate m n) c = gl_blend_equation_separate m n c
stub_call (blend_func m n) c = gl_blend_func m n c
stub_call (blend_func_separate m n o p) c = gl_blend_func_separate m n o p c
stub_call (depth_func f) c = gl_depth_func f c
stub_call (depth_mask b) c = gl_depth_mask b c
stub_call (color_mask m) c = gl_color_mask m c
stub_call (delete_textures ns) c = sent c (invalidate_all shadow_invalidate_texture ns c.shadow)
stub_call (delete_framebuffers ns) c = sent c (invalidate_all shadow_invalidate_fbo ns c.shadow)
stub_call (delete_vertex_arrays ns) c = sent c (invalidate_all shadow_invalidate_vao ns c.shadow)
stub_call (delete_samplers ns) c = sent c (invalidate_all shadow_invalidate_sampler ns c.shadow)
stub_call (untracked n) c = sent c c.shadow

-- Deleting an object unbinds it wherever the current context has it bound.
abbrev pub drop_texture : ℕ → GlState → GlState
drop_texture n g = record g { texture = λ t u. forget n 0 (g.texture t u) }

abbrev pub drop_framebuffer : ℕ → GlState → GlState
drop_framebuffer n g = record g { draw_fb = forget n 0 g.draw_fb; read_fb = forget n 0 g.read_fb }

abbrev pub drop_vertex_array : ℕ → GlState → GlState
drop_vertex_array n g = record g { vao = forget n 0 g.vao }

abbrev pub drop_sampler : ℕ → GlState → GlState
drop_sampler n g = record g { sampler = λ u. forget n 0 (g.sampler u) }

abbrev pub drop_all : (ℕ → GlState → GlState) → List ℕ → GlState → GlState
drop_all drop [] g = g
drop_all drop (n ∷ ns) g = drop_all drop ns (drop n g)

-- `glBindFramebuffer` sets the draw binding, the read binding or both.
abbrev pub bound_framebuffers : ℕ → ℕ → GlState → GlState
bound_framebuffers target f g =
    if target == gl_framebuffer
    then record g { draw_fb = f; read_fb = f }
    else if target == gl_draw_framebuffer
    then record g { draw_fb = f }
    else if target == gl_read_framebuffer
    then record g { read_fb = f }
    else g

unfoldable pub gl_effect : Call → GlState → GlState
gl_effect (active_texture t) g = record g { active_texture = t }
gl_effect (bind_texture target t) g = record g {
  texture = update g.texture target (update (g.texture target) g.active_texture t);
}
gl_effect (use_program p) g = record g { program = p }
gl_effect (bind_framebuffer target f) g = bound_framebuffers target f g
gl_effect (bind_vertex_array v) g = record g { vao = v }
gl_effect (bind_sampler u s) g = record g { sampler = update g.sampler u s }
gl_effect (viewport b) g = record g { viewport = b }
gl_effect (scissor b) g = record g { scissor = b }
gl_effect (enable on cap) g = record g { cap = update g.cap cap on }
gl_effect (front_face m) g = record g { front_face = m }
gl_effect (blend_equation m) g = record g { blend_eq_rgb = m; blend_eq_alpha = m }
gl_effect (blend_equation_separate m n) g = record g { blend_eq_rgb = m; blend_eq_alpha = n }
gl_effect (blend_func m n) g = record g {
  blend_src_rgb = m;
  blend_dst_rgb = n;
  blend_src_alpha = m;
  blend_dst_alpha = n;
}
gl_effect (blend_func_separate m n o p) g = record g {
  blend_src_rgb = m;
  blend_dst_rgb = n;
  blend_src_alpha = o;
  blend_dst_alpha = p;
}
gl_effect (depth_func f) g = record g { depth_func = f }
gl_effect (depth_mask b) g = record g { depth_mask = b }
gl_effect (color_mask m) g = record g { color_mask = m }
gl_effect (delete_textures ns) g = drop_all drop_texture ns g
gl_effect (delete_framebuffers ns) g = drop_all drop_framebuffer ns g
gl_effect (delete_vertex_arrays ns) g = drop_all drop_vertex_array ns g
gl_effect (delete_samplers ns) g = drop_all drop_sampler ns g
gl_effect (untracked n) g = g

-- A new context, with the rectangle of its surface.
abbrev pub gl_initial : Box → GlState
gl_initial box = record {
  active_texture = gl_texture0;
  texture = λ t u. 0;
  program = 0;
  draw_fb = 0;
  read_fb = 0;
  vao = 0;
  sampler = λ u. 0;
  viewport = box;
  scissor = box;
  color_mask = full_mask;
  depth_func = gl_less;
  depth_mask = true;
  front_face = gl_ccw;
  blend_eq_rgb = gl_func_add;
  blend_eq_alpha = gl_func_add;
  blend_src_rgb = gl_one;
  blend_dst_rgb = gl_zero;
  blend_src_alpha = gl_one;
  blend_dst_alpha = gl_zero;
  cap = λ e. e == 3024;
}

-- A call that only sets variables.
abbrev pub is_setter : Call → Bool
is_setter (untracked n) = false
is_setter (delete_textures ns) = false
is_setter (delete_framebuffers ns) = false
is_setter (delete_vertex_arrays ns) = false
is_setter (delete_samplers ns) = false
is_setter call = true

-- The driver: its state holds more than the variables above. A setter that it accepts and that leaves
-- every variable at its value changes nothing; names and enumerants are those of `GLuint`, and no
-- object has the name that the shadow takes for none.
pub record Driver : Type 1 where
  pub State : Type 0
  pub get : State → ℕ → GlState
  pub accepts : ℕ → Call → State → Bool
  pub exec : ℕ → Call → State → State
  pub create : ℕ → State → State
  pub surface : State → ℕ → Box
  pub effect :
      (k : ℕ) (call : Call) (d : State)
      → accepts k call d ≡ true
      → get (exec k call d) k ≡ gl_effect call (get d k)
  pub elsewhere : (k j : ℕ) (call : Call) (d : State) → j ≢ k → get (exec k call d) j ≡ get d j
  pub redundant :
      (k : ℕ) (call : Call) (d : State)
      → accepts k call d ≡ true
      → is_setter call ≡ true
      → gl_effect call (get d k) ≡ get d k
      → exec k call d ≡ d
  pub created : (k : ℕ) (d : State) → get (create k d) k ≡ gl_initial (surface d k)
  pub create_elsewhere : (k j : ℕ) (d : State) → j ≢ k → get (create k d) j ≡ get d j
