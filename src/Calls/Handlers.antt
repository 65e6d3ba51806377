-- ===== src/Calls/Handlers.antt =====
-- proxy/proxy.c: the entries of `dispatch_table` for the calls.
pub mod Objects
pub mod State
pub mod Gles3
use webos_bridge_64to.Common.{ℕ, List, [], ◌∷◌}
use webos_bridge_64to.Calls.Args.{Handler}
use webos_bridge_64to.Calls.Opcodes.{
  op_gl_active_texture, op_gl_bind_texture, op_gl_copy_tex_image_2d, op_gl_copy_tex_sub_image_2d,
  op_gl_generate_mipmap, op_gl_pixel_storei, op_gl_bind_renderbuffer, op_gl_renderbuffer_storage,
  op_gl_delete_shader, op_gl_compile_shader, op_gl_release_shader_compiler, op_gl_delete_program,
  op_gl_attach_shader, op_gl_detach_shader, op_gl_link_program, op_gl_use_program,
  op_gl_validate_program, op_gl_viewport, op_gl_scissor, op_gl_enable, op_gl_disable,
  op_gl_cull_face, op_gl_front_face, op_gl_line_width, op_gl_polygon_offset, op_gl_sample_coverage,
  op_gl_hint, op_gl_blend_color, op_gl_blend_equation, op_gl_blend_equation_separate,
  op_gl_blend_func, op_gl_blend_func_separate, op_gl_depth_func, op_gl_depth_mask,
  op_gl_depth_rangef, op_gl_color_mask, op_gl_stencil_func, op_gl_stencil_func_separate,
  op_gl_stencil_mask, op_gl_stencil_mask_separate, op_gl_stencil_op, op_gl_stencil_op_separate,
  op_gl_clear, op_gl_clear_color, op_gl_clear_depthf, op_gl_clear_stencil, op_gl_flush,
  op_gl_begin_query, op_gl_end_query, op_gl_bind_sampler, op_gl_draw_arrays_instanced,
  op_gl_copy_tex_sub_image_3d, op_gl_vertex_attrib_i4i, op_gl_vertex_attrib_i4ui,
  op_gl_end_transform_feedback, op_gl_uniform1ui, op_gl_uniform2ui, op_gl_uniform3ui,
  op_gl_uniform4ui, op_gl_tex_storage_3d, op_gl_color_maski, op_gl_enablei, op_gl_disablei,
  op_gl_bind_buffer_base, op_gl_sampler_parameteri, op_gl_sampler_parameterf,
  op_gl_begin_transform_feedback, op_gl_uniform_block_binding,
  op_gl_renderbuffer_storage_multisample, op_gl_blit_framebuffer, op_gl_bind_transform_feedback,
  op_gl_pause_transform_feedback, op_gl_resume_transform_feedback, op_gl_bind_image_texture,
  op_gl_pop_debug_group, op_gl_read_buffer, op_gl_clear_bufferfi, op_gl_tex_buffer,
  op_gl_program_parameteri, op_gl_tex_storage_3d_multisample, op_gl_min_sample_shading,
  op_gl_copy_image_sub_data, op_gl_memory_barrier, op_gl_dispatch_compute,
  op_gl_tex_storage_2d_multisample, op_gl_primitive_bounding_box, op_gl_use_program_stages,
  op_gl_bind_program_pipeline, op_gl_active_shader_program, op_gl_validate_program_pipeline,
  op_gl_memory_barrier_by_region, op_gl_blend_barrier, op_gl_patch_parameteri,
}
use webos_bridge_64to.Calls.Handlers.Objects.{
  h_gl_active_texture, h_gl_bind_texture, h_gl_copy_tex_image_2d, h_gl_copy_tex_sub_image_2d,
  h_gl_generate_mipmap, h_gl_pixel_storei, h_gl_bind_renderbuffer, h_gl_renderbuffer_storage,
  h_gl_delete_shader, h_gl_compile_shader, h_gl_release_shader_compiler, h_gl_delete_program,
  h_gl_attach_shader, h_gl_detach_shader, h_gl_link_program, h_gl_use_program,
  h_gl_validate_program,
}
use webos_bridge_64to.Calls.Handlers.State.{
  h_gl_viewport, h_gl_scissor, h_gl_enable, h_gl_disable, h_gl_cull_face, h_gl_front_face,
  h_gl_line_width, h_gl_polygon_offset, h_gl_sample_coverage, h_gl_hint, h_gl_blend_color,
  h_gl_blend_equation, h_gl_blend_equation_separate, h_gl_blend_func, h_gl_blend_func_separate,
  h_gl_depth_func, h_gl_depth_mask, h_gl_depth_rangef, h_gl_color_mask, h_gl_stencil_func,
  h_gl_stencil_func_separate, h_gl_stencil_mask, h_gl_stencil_mask_separate, h_gl_stencil_op,
  h_gl_stencil_op_separate, h_gl_clear, h_gl_clear_color, h_gl_clear_depthf, h_gl_clear_stencil,
  h_gl_flush,
}
use webos_bridge_64to.Calls.Handlers.Gles3.{
  h_gl_begin_query, h_gl_end_query, h_gl_bind_sampler, h_gl_draw_arrays_instanced,
  h_gl_copy_tex_sub_image_3d, h_gl_vertex_attrib_i4i, h_gl_vertex_attrib_i4ui,
  h_gl_end_transform_feedback, h_gl_uniform1ui, h_gl_uniform2ui, h_gl_uniform3ui, h_gl_uniform4ui,
  h_gl_tex_storage_3d, h_gl_color_maski, h_gl_enablei, h_gl_disablei, h_gl_bind_buffer_base,
  h_gl_sampler_parameteri, h_gl_sampler_parameterf, h_gl_begin_transform_feedback,
  h_gl_uniform_block_binding, h_gl_renderbuffer_storage_multisample, h_gl_blit_framebuffer,
  h_gl_bind_transform_feedback, h_gl_pause_transform_feedback, h_gl_resume_transform_feedback,
  h_gl_bind_image_texture, h_gl_pop_debug_group, h_gl_read_buffer, h_gl_clear_bufferfi,
  h_gl_tex_buffer, h_gl_program_parameteri, h_gl_tex_storage_3d_multisample,
  h_gl_min_sample_shading, h_gl_copy_image_sub_data, h_gl_memory_barrier, h_gl_dispatch_compute,
  h_gl_tex_storage_2d_multisample, h_gl_primitive_bounding_box, h_gl_use_program_stages,
  h_gl_bind_program_pipeline, h_gl_active_shader_program, h_gl_validate_program_pipeline,
  h_gl_memory_barrier_by_region, h_gl_blend_barrier, h_gl_patch_parameteri,
}

unfoldable pub dispatch_table : List (ℕ × Handler)
dispatch_table =
    (op_gl_active_texture, h_gl_active_texture)
    ∷ (op_gl_bind_texture, h_gl_bind_texture)
    ∷ (op_gl_copy_tex_image_2d, h_gl_copy_tex_image_2d)
    ∷ (op_gl_copy_tex_sub_image_2d, h_gl_copy_tex_sub_image_2d)
    ∷ (op_gl_generate_mipmap, h_gl_generate_mipmap)
    ∷ (op_gl_pixel_storei, h_gl_pixel_storei)
    ∷ (op_gl_bind_renderbuffer, h_gl_bind_renderbuffer)
    ∷ (op_gl_renderbuffer_storage, h_gl_renderbuffer_storage)
    ∷ (op_gl_delete_shader, h_gl_delete_shader)
    ∷ (op_gl_compile_shader, h_gl_compile_shader)
    ∷ (op_gl_release_shader_compiler, h_gl_release_shader_compiler)
    ∷ (op_gl_delete_program, h_gl_delete_program)
    ∷ (op_gl_attach_shader, h_gl_attach_shader)
    ∷ (op_gl_detach_shader, h_gl_detach_shader)
    ∷ (op_gl_link_program, h_gl_link_program)
    ∷ (op_gl_use_program, h_gl_use_program)
    ∷ (op_gl_validate_program, h_gl_validate_program)
    ∷ (op_gl_viewport, h_gl_viewport)
    ∷ (op_gl_scissor, h_gl_scissor)
    ∷ (op_gl_enable, h_gl_enable)
    ∷ (op_gl_disable, h_gl_disable)
    ∷ (op_gl_cull_face, h_gl_cull_face)
    ∷ (op_gl_front_face, h_gl_front_face)
    ∷ (op_gl_line_width, h_gl_line_width)
    ∷ (op_gl_polygon_offset, h_gl_polygon_offset)
    ∷ (op_gl_sample_coverage, h_gl_sample_coverage)
    ∷ (op_gl_hint, h_gl_hint)
    ∷ (op_gl_blend_color, h_gl_blend_color)
    ∷ (op_gl_blend_equation, h_gl_blend_equation)
    ∷ (op_gl_blend_equation_separate, h_gl_blend_equation_separate)
    ∷ (op_gl_blend_func, h_gl_blend_func)
    ∷ (op_gl_blend_func_separate, h_gl_blend_func_separate)
    ∷ (op_gl_depth_func, h_gl_depth_func)
    ∷ (op_gl_depth_mask, h_gl_depth_mask)
    ∷ (op_gl_depth_rangef, h_gl_depth_rangef)
    ∷ (op_gl_color_mask, h_gl_color_mask)
    ∷ (op_gl_stencil_func, h_gl_stencil_func)
    ∷ (op_gl_stencil_func_separate, h_gl_stencil_func_separate)
    ∷ (op_gl_stencil_mask, h_gl_stencil_mask)
    ∷ (op_gl_stencil_mask_separate, h_gl_stencil_mask_separate)
    ∷ (op_gl_stencil_op, h_gl_stencil_op)
    ∷ (op_gl_stencil_op_separate, h_gl_stencil_op_separate)
    ∷ (op_gl_clear, h_gl_clear)
    ∷ (op_gl_clear_color, h_gl_clear_color)
    ∷ (op_gl_clear_depthf, h_gl_clear_depthf)
    ∷ (op_gl_clear_stencil, h_gl_clear_stencil)
    ∷ (op_gl_flush, h_gl_flush)
    ∷ (op_gl_vertex_attrib_i4i, h_gl_vertex_attrib_i4i)
    ∷ (op_gl_vertex_attrib_i4ui, h_gl_vertex_attrib_i4ui)
    ∷ (op_gl_draw_arrays_instanced, h_gl_draw_arrays_instanced)
    ∷ (op_gl_begin_query, h_gl_begin_query)
    ∷ (op_gl_end_query, h_gl_end_query)
    ∷ (op_gl_bind_sampler, h_gl_bind_sampler)
    ∷ (op_gl_sampler_parameteri, h_gl_sampler_parameteri)
    ∷ (op_gl_sampler_parameterf, h_gl_sampler_parameterf)
    ∷ (op_gl_begin_transform_feedback, h_gl_begin_transform_feedback)
    ∷ (op_gl_end_transform_feedback, h_gl_end_transform_feedback)
    ∷ (op_gl_bind_buffer_base, h_gl_bind_buffer_base)
    ∷ (op_gl_bind_transform_feedback, h_gl_bind_transform_feedback)
    ∷ (op_gl_pause_transform_feedback, h_gl_pause_transform_feedback)
    ∷ (op_gl_resume_transform_feedback, h_gl_resume_transform_feedback)
    ∷ (op_gl_uniform1ui, h_gl_uniform1ui)
    ∷ (op_gl_uniform2ui, h_gl_uniform2ui)
    ∷ (op_gl_uniform3ui, h_gl_uniform3ui)
    ∷ (op_gl_uniform4ui, h_gl_uniform4ui)
    ∷ (op_gl_uniform_block_binding, h_gl_uniform_block_binding)
    ∷ (op_gl_copy_tex_sub_image_3d, h_gl_copy_tex_sub_image_3d)
    ∷ (op_gl_tex_storage_3d, h_gl_tex_storage_3d)
    ∷ (op_gl_color_maski, h_gl_color_maski)
    ∷ (op_gl_enablei, h_gl_enablei)
    ∷ (op_gl_disablei, h_gl_disablei)
    ∷ (op_gl_renderbuffer_storage_multisample, h_gl_renderbuffer_storage_multisample)
    ∷ (op_gl_blit_framebuffer, h_gl_blit_framebuffer)
    ∷ (op_gl_bind_image_texture, h_gl_bind_image_texture)
    ∷ (op_gl_pop_debug_group, h_gl_pop_debug_group)
    ∷ (op_gl_clear_bufferfi, h_gl_clear_bufferfi)
    ∷ (op_gl_copy_image_sub_data, h_gl_copy_image_sub_data)
    ∷ (op_gl_dispatch_compute, h_gl_dispatch_compute)
    ∷ (op_gl_memory_barrier, h_gl_memory_barrier)
    ∷ (op_gl_min_sample_shading, h_gl_min_sample_shading)
    ∷ (op_gl_program_parameteri, h_gl_program_parameteri)
    ∷ (op_gl_read_buffer, h_gl_read_buffer)
    ∷ (op_gl_tex_buffer, h_gl_tex_buffer)
    ∷ (op_gl_tex_storage_2d_multisample, h_gl_tex_storage_2d_multisample)
    ∷ (op_gl_tex_storage_3d_multisample, h_gl_tex_storage_3d_multisample)
    ∷ (op_gl_primitive_bounding_box, h_gl_primitive_bounding_box)
    ∷ (op_gl_use_program_stages, h_gl_use_program_stages)
    ∷ (op_gl_bind_program_pipeline, h_gl_bind_program_pipeline)
    ∷ (op_gl_active_shader_program, h_gl_active_shader_program)
    ∷ (op_gl_validate_program_pipeline, h_gl_validate_program_pipeline)
    ∷ (op_gl_memory_barrier_by_region, h_gl_memory_barrier_by_region)
    ∷ (op_gl_blend_barrier, h_gl_blend_barrier)
    ∷ (op_gl_patch_parameteri, h_gl_patch_parameteri)
    ∷ []
