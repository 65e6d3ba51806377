-- ===== src/Calls/Deliver.antt =====
-- A call from the function that the program calls to the function that the proxy calls.
use webos_bridge_64to.Common.{ℕ, ◌^◌, ◌<◌, ◌%◌, ◌≡◌, refl, List, [], ◌∷◌, Option, none, some, arith}
use webos_bridge_64to.Wire.Args.{ArgWriter, ar, ar_init, aw, aw_all, aw_init, word32}
use webos_bridge_64to.Wire.RoundTrip.{read_first}
use webos_bridge_64to.Calls.Args.{
  CallSlot, Command, Kind, Order, Values, args_size, entry, fill, in_call, in_locals, left_first,
  no_result, packed, read_left, setup_scalar,
}
use webos_bridge_64to.Calls.Api
use webos_bridge_64to.Calls.Api.{GlCall}
use webos_bridge_64to.Calls.Send.{send}
use webos_bridge_64to.Calls.Handlers.{dispatch_table}
use webos_bridge_64to.Calls.Send.Objects.{
  send_gl_active_texture, send_gl_bind_texture, send_gl_copy_tex_image_2d,
  send_gl_copy_tex_sub_image_2d, send_gl_generate_mipmap, send_gl_pixel_storei,
  send_gl_bind_renderbuffer, send_gl_renderbuffer_storage, send_gl_delete_shader,
  send_gl_compile_shader, send_gl_release_shader_compiler, send_gl_delete_program,
  send_gl_attach_shader, send_gl_detach_shader, send_gl_link_program, send_gl_use_program,
  send_gl_validate_program,
}
use webos_bridge_64to.Calls.Send.State.{
  send_gl_viewport, send_gl_scissor, send_gl_enable, send_gl_disable, send_gl_cull_face,
  send_gl_front_face, send_gl_line_width, send_gl_polygon_offset, send_gl_sample_coverage,
  send_gl_hint, send_gl_blend_color, send_gl_blend_equation, send_gl_blend_equation_separate,
  send_gl_blend_func, send_gl_blend_func_separate, send_gl_depth_func, send_gl_depth_mask,
  send_gl_depth_rangef, send_gl_color_mask, send_gl_stencil_func, send_gl_stencil_func_separate,
  send_gl_stencil_mask, send_gl_stencil_mask_separate, send_gl_stencil_op,
  send_gl_stencil_op_separate, send_gl_clear, send_gl_clear_color, send_gl_clear_depthf,
  send_gl_clear_stencil, send_gl_flush,
}
use webos_bridge_64to.Calls.Send.Gles3.{
  send_gl_begin_query, send_gl_end_query, send_gl_bind_sampler, send_gl_draw_arrays_instanced,
  send_gl_copy_tex_sub_image_3d, send_gl_vertex_attrib_i4i, send_gl_vertex_attrib_i4ui,
  send_gl_end_transform_feedback, send_gl_uniform1ui, send_gl_uniform2ui, send_gl_uniform3ui,
  send_gl_uniform4ui, send_gl_tex_storage_3d, send_gl_color_maski, send_gl_enablei,
  send_gl_disablei, send_gl_bind_buffer_base, send_gl_sampler_parameteri,
  send_gl_sampler_parameterf, send_gl_begin_transform_feedback, send_gl_uniform_block_binding,
  send_gl_renderbuffer_storage_multisample, send_gl_blit_framebuffer,
  send_gl_bind_transform_feedback, send_gl_pause_transform_feedback,
  send_gl_resume_transform_feedback, send_gl_bind_image_texture, send_gl_pop_debug_group,
  send_gl_read_buffer, send_gl_clear_bufferfi, send_gl_tex_buffer, send_gl_program_parameteri,
  send_gl_tex_storage_3d_multisample, send_gl_min_sample_shading, send_gl_copy_image_sub_data,
  send_gl_memory_barrier, send_gl_dispatch_compute, send_gl_tex_storage_2d_multisample,
  send_gl_primitive_bounding_box, send_gl_use_program_stages, send_gl_bind_program_pipeline,
  send_gl_active_shader_program, send_gl_validate_program_pipeline,
  send_gl_memory_barrier_by_region, send_gl_blend_barrier, send_gl_patch_parameteri,
}
use webos_bridge_64to.Calls.Handlers.Objects.{
  h_gl_active_texture, h_gl_bind_texture, h_gl_copy_tex_image_2d, h_gl_copy_tex_sub_image_2d,
  h_gl_generate_mipmap, h_gl_pixel_storei, h_gl_bind_renderbuffer, h_gl_renderbuffer_storage,
  h_gl_delete_shader, h_gl_compile_shader, h_gl_release_shader_compiler, h_gl_delete_program,
  h_gl_attach_shader, h_gl_detach_shader, h_gl_link_program, h_gl_use_program,
  h_gl_validate_program,
}
use webos_bridge_64to.Calls.Handlers.State.{
  h_gl_viewport, h_gl_scissor, h_gl_enable, h_gl_disable, h_gl_cull_face, h_gl_front_face,
  h_gl_line_width, h_gl_polygon_offset, h_gl_sample_coverage, h_gl_hint, h_gl_blend_color,
  h_gl_blend_equation, h_gl_blend_equation_separate, h_gl_blend_func, h_gl_blend_func_separate,
  h_gl_depth_func, h_gl_depth_mask, h_gl_depth_rangef, h_gl_color_mask, h_gl_stencil_func,
  h_gl_stencil_func_separate, h_gl_stencil_mask, h_gl_stencil_mask_separate, h_gl_stencil_op,
  h_gl_stencil_op_separate, h_gl_clear, h_gl_clear_color, h_gl_clear_depthf, h_gl_clear_stencil,
  h_gl_flush,
}
use webos_bridge_64to.Calls.Handlers.Gles3.{
  h_gl_begin_query, h_gl_end_query, h_gl_bind_sampler, h_gl_draw_arrays_instanced,
  h_gl_copy_tex_sub_image_3d, h_gl_vertex_attrib_i4i, h_gl_vertex_attrib_i4ui,
  h_gl_end_transform_feedback, h_gl_uniform1ui, h_gl_uniform2ui, h_gl_uniform3ui, h_gl_uniform4ui,
  h_gl_tex_storage_3d, h_gl_color_maski, h_gl_enablei, h_gl_disablei, h_gl_bind_buffer_base,
  h_gl_sampler_parameteri, h_gl_sampler_parameterf, h_gl_begin_transform_feedback,
  h_gl_uniform_block_binding, h_gl_renderbuffer_storage_multisample, h_gl_blit_framebuffer,
  h_gl_bind_transform_feedback, h_gl_pause_transform_feedback, h_gl_resume_transform_feedback,
  h_gl_bind_image_texture, h_gl_pop_debug_group, h_gl_read_buffer, h_gl_clear_bufferfi,
  h_gl_tex_buffer, h_gl_program_parameteri, h_gl_tex_storage_3d_multisample,
  h_gl_min_sample_shading, h_gl_copy_image_sub_data, h_gl_memory_barrier, h_gl_dispatch_compute,
  h_gl_tex_storage_2d_multisample, h_gl_primitive_bounding_box, h_gl_use_program_stages,
  h_gl_bind_program_pipeline, h_gl_active_shader_program, h_gl_validate_program_pipeline,
  h_gl_memory_barrier_by_region, h_gl_blend_barrier, h_gl_patch_parameteri,
}

abbrev pub kinds : List (Kind × ℕ) → List Kind
kinds [] = []
kinds (a ∷ more) = a.0 ∷ kinds more

abbrev pub values : (args : List (Kind × ℕ)) → Values (kinds args)
values [] = tt
values (a ∷ more) = (a.1, values more)

-- Every argument is a number of 32 bits.
abbrev pub AreWords : List (Kind × ℕ) → Type 0
AreWords [] = Unit
AreWords (a ∷ more) = (a.1 < 2 ^ 32) × AreWords more

-- `dispatch_table[op](C, D)`: the function of the driver that the handler calls.
unfoldable pub dispatch : Order → CallSlot → Option GlCall
dispatch order slot = elim (entry slot.opcode dispatch_table) [
  | none ↦ none
  | some h ↦ some (h order slot).0
]

read_left-lem :
    (args : List (Kind × ℕ)) (w : ArgWriter) (len : ℕ)
    → AreWords args
    → (read_left
        (kinds args)
        (record { buf = (aw_all (packed args) w).buf; pos = w.pos; cap = len })).0
      ≡ values args
unfolding read_left aw_all ar
read_left-lem [] w len fit = refl
read_left-lem (a ∷ more) w len fit =
    let (small, rest) = fit in
    let word : a.1 % 2 ^ 32 ≡ a.1 = ground arith in
    let first = read_first (word32 a.1) (packed more) w len in
    rw (first, word, read_left-lem more (aw (word32 a.1) w) len rest) refl

-- What a handler of these reads is what the stub has packed.
pub filled_args :
    (c : Command) (slot : CallSlot)
    → AreWords c.args
    → let s = fill c slot in
      (read_left (kinds c.args) (ar_init s.args s.args_len)).0 ≡ values c.args
unfolding fill setup_scalar ar_init aw_init
filled_args c slot fit =
    read_left-lem c.args (aw_init slot.args args_size)
      (aw_all (packed c.args) (aw_init slot.args args_size)).pos fit

-- Each of these calls, made in the stub with arguments of 32 bits and put in any slot, is the call that
-- the proxy's handler for its opcode makes on the driver, with the same arguments in the same order,
-- if the compiler evaluates the arguments of a call from the first to the last.
pub calls_arrive :
    (call : GlCall) (slot : CallSlot)
    → AreWords (send call).args
    → dispatch left_first (fill (send call) slot) ≡ some call
unfolding send dispatch dispatch_table entry in_call in_locals no_result send_gl_active_texture
    send_gl_bind_texture send_gl_copy_tex_image_2d send_gl_copy_tex_sub_image_2d
    send_gl_generate_mipmap send_gl_pixel_storei send_gl_bind_renderbuffer
    send_gl_renderbuffer_storage send_gl_delete_shader send_gl_compile_shader
    send_gl_release_shader_compiler send_gl_delete_program send_gl_attach_shader
    send_gl_detach_shader send_gl_link_program send_gl_use_program send_gl_validate_program
    send_gl_viewport send_gl_scissor send_gl_enable send_gl_disable send_gl_cull_face
    send_gl_front_face send_gl_line_width send_gl_polygon_offset send_gl_sample_coverage
    send_gl_hint send_gl_blend_color send_gl_blend_equation send_gl_blend_equation_separate
    send_gl_blend_func send_gl_blend_func_separate send_gl_depth_func send_gl_depth_mask
    send_gl_depth_rangef send_gl_color_mask send_gl_stencil_func send_gl_stencil_func_separate
    send_gl_stencil_mask send_gl_stencil_mask_separate send_gl_stencil_op
    send_gl_stencil_op_separate send_gl_clear send_gl_clear_color send_gl_clear_depthf
    send_gl_clear_stencil send_gl_flush send_gl_begin_query send_gl_end_query send_gl_bind_sampler
    send_gl_draw_arrays_instanced send_gl_copy_tex_sub_image_3d send_gl_vertex_attrib_i4i
    send_gl_vertex_attrib_i4ui send_gl_end_transform_feedback send_gl_uniform1ui send_gl_uniform2ui
    send_gl_uniform3ui send_gl_uniform4ui send_gl_tex_storage_3d send_gl_color_maski send_gl_enablei
    send_gl_disablei send_gl_bind_buffer_base send_gl_sampler_parameteri send_gl_sampler_parameterf
    send_gl_begin_transform_feedback send_gl_uniform_block_binding
    send_gl_renderbuffer_storage_multisample send_gl_blit_framebuffer
    send_gl_bind_transform_feedback send_gl_pause_transform_feedback
    send_gl_resume_transform_feedback send_gl_bind_image_texture send_gl_pop_debug_group
    send_gl_read_buffer send_gl_clear_bufferfi send_gl_tex_buffer send_gl_program_parameteri
    send_gl_tex_storage_3d_multisample send_gl_min_sample_shading send_gl_copy_image_sub_data
    send_gl_memory_barrier send_gl_dispatch_compute send_gl_tex_storage_2d_multisample
    send_gl_primitive_bounding_box send_gl_use_program_stages send_gl_bind_program_pipeline
    send_gl_active_shader_program send_gl_validate_program_pipeline send_gl_memory_barrier_by_region
    send_gl_blend_barrier send_gl_patch_parameteri h_gl_active_texture h_gl_bind_texture
    h_gl_copy_tex_image_2d h_gl_copy_tex_sub_image_2d h_gl_generate_mipmap h_gl_pixel_storei
    h_gl_bind_renderbuffer h_gl_renderbuffer_storage h_gl_delete_shader h_gl_compile_shader
    h_gl_release_shader_compiler h_gl_delete_program h_gl_attach_shader h_gl_detach_shader
    h_gl_link_program h_gl_use_program h_gl_validate_program h_gl_viewport h_gl_scissor h_gl_enable
    h_gl_disable h_gl_cull_face h_gl_front_face h_gl_line_width h_gl_polygon_offset
    h_gl_sample_coverage h_gl_hint h_gl_blend_color h_gl_blend_equation h_gl_blend_equation_separate
    h_gl_blend_func h_gl_blend_func_separate h_gl_depth_func h_gl_depth_mask h_gl_depth_rangef
    h_gl_color_mask h_gl_stencil_func h_gl_stencil_func_separate h_gl_stencil_mask
    h_gl_stencil_mask_separate h_gl_stencil_op h_gl_stencil_op_separate h_gl_clear h_gl_clear_color
    h_gl_clear_depthf h_gl_clear_stencil h_gl_flush h_gl_begin_query h_gl_end_query
    h_gl_bind_sampler h_gl_draw_arrays_instanced h_gl_copy_tex_sub_image_3d h_gl_vertex_attrib_i4i
    h_gl_vertex_attrib_i4ui h_gl_end_transform_feedback h_gl_uniform1ui h_gl_uniform2ui
    h_gl_uniform3ui h_gl_uniform4ui h_gl_tex_storage_3d h_gl_color_maski h_gl_enablei h_gl_disablei
    h_gl_bind_buffer_base h_gl_sampler_parameteri h_gl_sampler_parameterf
    h_gl_begin_transform_feedback h_gl_uniform_block_binding h_gl_renderbuffer_storage_multisample
    h_gl_blit_framebuffer h_gl_bind_transform_feedback h_gl_pause_transform_feedback
    h_gl_resume_transform_feedback h_gl_bind_image_texture h_gl_pop_debug_group h_gl_read_buffer
    h_gl_clear_bufferfi h_gl_tex_buffer h_gl_program_parameteri h_gl_tex_storage_3d_multisample
    h_gl_min_sample_shading h_gl_copy_image_sub_data h_gl_memory_barrier h_gl_dispatch_compute
    h_gl_tex_storage_2d_multisample h_gl_primitive_bounding_box h_gl_use_program_stages
    h_gl_bind_program_pipeline h_gl_active_shader_program h_gl_validate_program_pipeline
    h_gl_memory_barrier_by_region h_gl_blend_barrier h_gl_patch_parameteri setup_scalar fill
calls_arrive (Api.gl_active_texture texture) slot fit =
    let all = filled_args (send (Api.gl_active_texture texture)) slot fit in cc
calls_arrive call slot fit = let all = filled_args (send call) slot fit in cc
