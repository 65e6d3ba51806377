-- ===== src/Calls/Handlers/Gles3.antt =====
-- proxy/protocol/gles3_2.c: the handlers of the calls of OpenGL ES 3.
use webos_bridge_64to.Common.{[], ◌∷◌}
use webos_bridge_64to.Calls.Args.{Handler, u32, i32, f32, in_call, in_locals, no_result}
use webos_bridge_64to.Calls.Api

unfoldable pub h_gl_begin_query : Handler
h_gl_begin_query = in_call (u32 ∷ u32 ∷ []) Api.gl_begin_query

unfoldable pub h_gl_end_query : Handler
h_gl_end_query = in_call (u32 ∷ []) Api.gl_end_query

unfoldable pub h_gl_bind_sampler : Handler
h_gl_bind_sampler = in_locals (u32 ∷ u32 ∷ []) Api.gl_bind_sampler

unfoldable pub h_gl_draw_arrays_instanced : Handler
h_gl_draw_arrays_instanced = in_call (u32 ∷ i32 ∷ i32 ∷ i32 ∷ []) Api.gl_draw_arrays_instanced

unfoldable pub h_gl_copy_tex_sub_image_3d : Handler
h_gl_copy_tex_sub_image_3d =
    in_call (u32 ∷ i32 ∷ i32 ∷ i32 ∷ i32 ∷ i32 ∷ i32 ∷ i32 ∷ i32 ∷ []) Api.gl_copy_tex_sub_image_3d

unfoldable pub h_gl_vertex_attrib_i4i : Handler
h_gl_vertex_attrib_i4i = in_locals (u32 ∷ i32 ∷ i32 ∷ i32 ∷ i32 ∷ []) Api.gl_vertex_attrib_i4i

unfoldable pub h_gl_vertex_attrib_i4ui : Handler
h_gl_vertex_attrib_i4ui = in_locals (u32 ∷ u32 ∷ u32 ∷ u32 ∷ u32 ∷ []) Api.gl_vertex_attrib_i4ui

unfoldable pub h_gl_end_transform_feedback : Handler
h_gl_end_transform_feedback = in_call ([]) Api.gl_end_transform_feedback

unfoldable pub h_gl_uniform1ui : Handler
h_gl_uniform1ui = in_locals (i32 ∷ u32 ∷ []) Api.gl_uniform1ui

unfoldable pub h_gl_uniform2ui : Handler
h_gl_uniform2ui = in_locals (i32 ∷ u32 ∷ u32 ∷ []) Api.gl_uniform2ui

unfoldable pub h_gl_uniform3ui : Handler
h_gl_uniform3ui = in_locals (i32 ∷ u32 ∷ u32 ∷ u32 ∷ []) Api.gl_uniform3ui

unfoldable pub h_gl_uniform4ui : Handler
h_gl_uniform4ui = in_locals (i32 ∷ u32 ∷ u32 ∷ u32 ∷ u32 ∷ []) Api.gl_uniform4ui

unfoldable pub h_gl_tex_storage_3d : Handler
h_gl_tex_storage_3d = in_locals (u32 ∷ i32 ∷ u32 ∷ i32 ∷ i32 ∷ i32 ∷ []) Api.gl_tex_storage_3d

unfoldable pub h_gl_color_maski : Handler
h_gl_color_maski = in_locals (u32 ∷ u32 ∷ u32 ∷ u32 ∷ u32 ∷ []) Api.gl_color_maski

unfoldable pub h_gl_enablei : Handler
h_gl_enablei = in_locals (u32 ∷ u32 ∷ []) Api.gl_enablei

unfoldable pub h_gl_disablei : Handler
h_gl_disablei = in_locals (u32 ∷ u32 ∷ []) Api.gl_disablei

unfoldable pub h_gl_bind_buffer_base : Handler
h_gl_bind_buffer_base = in_locals (u32 ∷ u32 ∷ u32 ∷ []) Api.gl_bind_buffer_base

unfoldable pub h_gl_sampler_parameteri : Handler
h_gl_sampler_parameteri = in_call (u32 ∷ u32 ∷ i32 ∷ []) Api.gl_sampler_parameteri

unfoldable pub h_gl_sampler_parameterf : Handler
h_gl_sampler_parameterf = in_locals (u32 ∷ u32 ∷ f32 ∷ []) Api.gl_sampler_parameterf

unfoldable pub h_gl_begin_transform_feedback : Handler
h_gl_begin_transform_feedback = in_locals (u32 ∷ []) Api.gl_begin_transform_feedback

unfoldable pub h_gl_uniform_block_binding : Handler
h_gl_uniform_block_binding = in_locals (u32 ∷ u32 ∷ u32 ∷ []) Api.gl_uniform_block_binding

unfoldable pub h_gl_renderbuffer_storage_multisample : Handler
h_gl_renderbuffer_storage_multisample =
    in_locals (u32 ∷ i32 ∷ u32 ∷ i32 ∷ i32 ∷ []) Api.gl_renderbuffer_storage_multisample

unfoldable pub h_gl_blit_framebuffer : Handler
h_gl_blit_framebuffer =
    in_locals (i32 ∷ i32 ∷ i32 ∷ i32 ∷ i32 ∷ i32 ∷ i32 ∷ i32 ∷ u32 ∷ u32 ∷ [])
      Api.gl_blit_framebuffer

unfoldable pub h_gl_bind_transform_feedback : Handler
h_gl_bind_transform_feedback = in_locals (u32 ∷ u32 ∷ []) Api.gl_bind_transform_feedback

unfoldable pub h_gl_pause_transform_feedback : Handler
h_gl_pause_transform_feedback = in_call ([]) Api.gl_pause_transform_feedback

unfoldable pub h_gl_resume_transform_feedback : Handler
h_gl_resume_transform_feedback = in_call ([]) Api.gl_resume_transform_feedback

unfoldable pub h_gl_bind_image_texture : Handler
h_gl_bind_image_texture =
    no_result (in_locals (u32 ∷ u32 ∷ i32 ∷ u32 ∷ i32 ∷ u32 ∷ u32 ∷ []) Api.gl_bind_image_texture)

unfoldable pub h_gl_pop_debug_group : Handler
h_gl_pop_debug_group = no_result (in_call ([]) Api.gl_pop_debug_group)

unfoldable pub h_gl_read_buffer : Handler
h_gl_read_buffer = no_result (in_locals (u32 ∷ []) Api.gl_read_buffer)

unfoldable pub h_gl_clear_bufferfi : Handler
h_gl_clear_bufferfi = no_result (in_locals (u32 ∷ i32 ∷ f32 ∷ i32 ∷ []) Api.gl_clear_bufferfi)

unfoldable pub h_gl_tex_buffer : Handler
h_gl_tex_buffer = no_result (in_locals (u32 ∷ u32 ∷ u32 ∷ []) Api.gl_tex_buffer)

unfoldable pub h_gl_program_parameteri : Handler
h_gl_program_parameteri = no_result (in_locals (u32 ∷ u32 ∷ i32 ∷ []) Api.gl_program_parameteri)

unfoldable pub h_gl_tex_storage_3d_multisample : Handler
h_gl_tex_storage_3d_multisample =
    no_result
      (in_locals (u32 ∷ i32 ∷ u32 ∷ i32 ∷ i32 ∷ i32 ∷ u32 ∷ []) Api.gl_tex_storage_3d_multisample)

unfoldable pub h_gl_min_sample_shading : Handler
h_gl_min_sample_shading = no_result (in_locals (f32 ∷ []) Api.gl_min_sample_shading)

unfoldable pub h_gl_copy_image_sub_data : Handler
h_gl_copy_image_sub_data = no_result (
    in_locals
      (u32 ∷ u32 ∷ i32 ∷ i32 ∷ i32 ∷ i32 ∷ u32 ∷ u32 ∷ i32 ∷ i32 ∷ i32 ∷ i32 ∷ i32 ∷ i32 ∷ i32 ∷ [])
      Api.gl_copy_image_sub_data)

unfoldable pub h_gl_memory_barrier : Handler
h_gl_memory_barrier = no_result (in_locals (u32 ∷ []) Api.gl_memory_barrier)

unfoldable pub h_gl_dispatch_compute : Handler
h_gl_dispatch_compute = no_result (in_locals (u32 ∷ u32 ∷ u32 ∷ []) Api.gl_dispatch_compute)

unfoldable pub h_gl_tex_storage_2d_multisample : Handler
h_gl_tex_storage_2d_multisample =
    no_result (in_locals (u32 ∷ i32 ∷ u32 ∷ i32 ∷ i32 ∷ u32 ∷ []) Api.gl_tex_storage_2d_multisample)

unfoldable pub h_gl_primitive_bounding_box : Handler
h_gl_primitive_bounding_box =
    no_result
      (in_locals (f32 ∷ f32 ∷ f32 ∷ f32 ∷ f32 ∷ f32 ∷ f32 ∷ f32 ∷ []) Api.gl_primitive_bounding_box)

unfoldable pub h_gl_use_program_stages : Handler
h_gl_use_program_stages = no_result (in_locals (u32 ∷ u32 ∷ u32 ∷ []) Api.gl_use_program_stages)

unfoldable pub h_gl_bind_program_pipeline : Handler
h_gl_bind_program_pipeline = no_result (in_locals (u32 ∷ []) Api.gl_bind_program_pipeline)

unfoldable pub h_gl_active_shader_program : Handler
h_gl_active_shader_program = no_result (in_locals (u32 ∷ u32 ∷ []) Api.gl_active_shader_program)

unfoldable pub h_gl_validate_program_pipeline : Handler
h_gl_validate_program_pipeline = no_result (in_locals (u32 ∷ []) Api.gl_validate_program_pipeline)

unfoldable pub h_gl_memory_barrier_by_region : Handler
h_gl_memory_barrier_by_region = no_result (in_locals (u32 ∷ []) Api.gl_memory_barrier_by_region)

unfoldable pub h_gl_blend_barrier : Handler
h_gl_blend_barrier = no_result (in_call ([]) Api.gl_blend_barrier)

unfoldable pub h_gl_patch_parameteri : Handler
h_gl_patch_parameteri = no_result (in_locals (u32 ∷ i32 ∷ []) Api.gl_patch_parameteri)
