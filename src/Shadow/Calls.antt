-- ===== src/Shadow/Calls.antt =====
-- stub/gles2_stub.c and stub/gles3_2_stub.c: the setters that look at the shadow first. Each returns
-- whether the call is sent to the proxy, and the context after it.
use webos_bridge_64to.Common.{
  ℕ, Bool, true, false, ◌&&◌, Option, none, some, ltb, ◌==◌, if◌then◌else◌, update,
}
use webos_bridge_64to.Shadow.State.{
  Box, Mask, StubShadowState, StubContext, max_texture_units, shadow_tex_slot, shadow_cap_slot,
}

abbrev pub Outcome : Type 0
Outcome = Bool × StubContext

-- The early return, and the call that goes on to the proxy.
abbrev pub elided : StubContext → Outcome
elided c = (false, c)

abbrev pub sent : StubContext → StubShadowState → Outcome
sent c s = (true, record c { shadow = s })

abbrev pub same_flag : Bool → Bool → Bool
same_flag true b = b
same_flag false true = false
same_flag false false = true

unfoldable pub same_box : Box → Box → Bool
same_box p q = p.x == q.x && p.y == q.y && p.w == q.w && p.h == q.h

unfoldable pub same_mask : Mask → Mask → Bool
same_mask p q = same_flag p.r q.r && same_flag p.g q.g && same_flag p.b q.b && same_flag p.a q.a

unfoldable pub gl_active_texture : ℕ → StubContext → Outcome
gl_active_texture texture c =
    let s = c.shadow in
    if s.active_texture == texture then elided c else sent c (record s { active_texture = texture })

-- The slot of a texture, NULL or not.
unfoldable pub store_texture : ℕ → Option (ℕ × ℕ) → StubContext → Outcome
store_texture texture none c = sent c c.shadow
store_texture texture (some slot) c =
    let (k, i) = slot in
    let s = c.shadow in
    if s.bound_texture k i == texture
    then elided c
    else sent c (record s {
      bound_texture = update s.bound_texture k (update (s.bound_texture k) i texture);
    })

unfoldable pub gl_bind_texture : ℕ → ℕ → StubContext → Outcome
gl_bind_texture target texture c =
    store_texture texture (shadow_tex_slot target c.shadow.active_texture) c

unfoldable pub gl_use_program : ℕ → StubContext → Outcome
gl_use_program program c =
    let s = c.shadow in
    if s.program == program then elided c else sent c (record s { program = program })

abbrev pub gl_framebuffer : ℕ
gl_framebuffer = 36160

abbrev pub gl_draw_framebuffer : ℕ
gl_draw_framebuffer = 36009

abbrev pub gl_read_framebuffer : ℕ
gl_read_framebuffer = 36008

unfoldable pub gl_bind_framebuffer : ℕ → ℕ → StubContext → Outcome
gl_bind_framebuffer target fb c =
    let s = c.shadow in
    if target == gl_framebuffer
    then (if s.draw_fb == fb && s.read_fb == fb
        then elided c
        else sent c (record s { draw_fb = fb; read_fb = fb }))
    else if target == gl_draw_framebuffer
    then (if s.draw_fb == fb then elided c else sent c (record s { draw_fb = fb }))
    else if target == gl_read_framebuffer
    then (if s.read_fb == fb then elided c else sent c (record s { read_fb = fb }))
    else sent c s

unfoldable pub gl_bind_vertex_array : ℕ → StubContext → Outcome
gl_bind_vertex_array array c =
    let s = c.shadow in
    if s.vao == array
    then elided c
    else sent (record c { current_vao = array }) (record s { vao = array })

unfoldable pub gl_bind_sampler : ℕ → ℕ → StubContext → Outcome
gl_bind_sampler unit sampler c =
    let s = c.shadow in
    if ltb unit max_texture_units
    then (if s.sampler unit == sampler
        then elided c
        else sent c (record s { sampler = update s.sampler unit sampler }))
    else sent c s

unfoldable pub gl_viewport : Box → StubContext → Outcome
gl_viewport box c =
    let s = c.shadow in
    if s.viewport_valid && same_box s.viewport box
    then elided c
    else sent c (record s { viewport = box; viewport_valid = true })

unfoldable pub gl_scissor : Box → StubContext → Outcome
gl_scissor box c =
    let s = c.shadow in
    if s.scissor_valid && same_box s.scissor box
    then elided c
    else sent c (record s { scissor = box; scissor_valid = true })

abbrev pub gl_primitive_restart_fixed_index : ℕ
gl_primitive_restart_fixed_index = 36201

unfoldable pub mark_restart : Bool → ℕ → StubContext → StubContext
mark_restart on cap c = record c {
  primitive_restart = if cap == gl_primitive_restart_fixed_index then on else c.primitive_restart;
}

-- The slot of a capability, NULL or not.
unfoldable pub store_cap : Bool → Option ℕ → StubContext → Outcome
store_cap on none c = sent c c.shadow
store_cap on (some i) c =
    let s = c.shadow in
    if same_flag (s.cap i) on then elided c else sent c (record s { cap = update s.cap i on })

-- `glEnable` with the flag true, `glDisable` with the flag false.
unfoldable pub set_cap : Bool → ℕ → StubContext → Outcome
set_cap on cap c = store_cap on (shadow_cap_slot cap) (mark_restart on cap c)

abbrev pub gl_enable : ℕ → StubContext → Outcome
gl_enable = set_cap true

abbrev pub gl_disable : ℕ → StubContext → Outcome
gl_disable = set_cap false

unfoldable pub gl_front_face : ℕ → StubContext → Outcome
gl_front_face mode c =
    let s = c.shadow in
    if s.front_face == mode then elided c else sent c (record s { front_face = mode })

unfoldable pub gl_blend_equation_separate : ℕ → ℕ → StubContext → Outcome
gl_blend_equation_separate rgb alpha c =
    let s = c.shadow in
    if s.blend_eq_rgb == rgb && s.blend_eq_alpha == alpha
    then elided c
    else sent c (record s { blend_eq_rgb = rgb; blend_eq_alpha = alpha })

unfoldable pub gl_blend_equation : ℕ → StubContext → Outcome
gl_blend_equation mode c =
    let s = c.shadow in
    if s.blend_eq_rgb == mode && s.blend_eq_alpha == mode
    then elided c
    else sent c (record s { blend_eq_rgb = mode; blend_eq_alpha = mode })

unfoldable pub gl_blend_func_separate : ℕ → ℕ → ℕ → ℕ → StubContext → Outcome
gl_blend_func_separate src_rgb dst_rgb src_alpha dst_alpha c =
    let s = c.shadow in
    if s.blend_src_rgb == src_rgb
      && s.blend_dst_rgb == dst_rgb
      && s.blend_src_alpha == src_alpha
      && s.blend_dst_alpha == dst_alpha
    then elided c
    else sent c (record s {
      blend_src_rgb = src_rgb;
      blend_dst_rgb = dst_rgb;
      blend_src_alpha = src_alpha;
      blend_dst_alpha = dst_alpha;
    })

unfoldable pub gl_blend_func : ℕ → ℕ → StubContext → Outcome
gl_blend_func sfactor dfactor c =
    let s = c.shadow in
    if s.blend_src_rgb == sfactor
      && s.blend_dst_rgb == dfactor
      && s.blend_src_alpha == sfactor
      && s.blend_dst_alpha == dfactor
    then elided c
    else sent c (record s {
      blend_src_rgb = sfactor;
      blend_src_alpha = sfactor;
      blend_dst_rgb = dfactor;
      blend_dst_alpha = dfactor;
    })

unfoldable pub gl_depth_func : ℕ → StubContext → Outcome
gl_depth_func func c =
    let s = c.shadow in
    if s.depth_func == func then elided c else sent c (record s { depth_func = func })

unfoldable pub gl_depth_mask : Bool → StubContext → Outcome
gl_depth_mask flag c =
    let s = c.shadow in
    if same_flag s.depth_mask flag then elided c else sent c (record s { depth_mask = flag })

unfoldable pub gl_color_mask : Mask → StubContext → Outcome
gl_color_mask mask c =
    let s = c.shadow in
    if same_mask s.color_mask mask then elided c else sent c (record s { color_mask = mask })
