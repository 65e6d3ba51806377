-- ===== src/Calls/Send.antt =====
-- stub/gles2_stub.c and stub/gles3_2_stub.c: the function that the program calls.
pub mod Objects
pub mod State
pub mod Gles3
use webos_bridge_64to.Calls.Args.{Command}
use webos_bridge_64to.Calls.Api
use webos_bridge_64to.Calls.Api.{GlCall}
use webos_bridge_64to.Calls.Send.Objects.{
  send_gl_active_texture, send_gl_bind_texture, send_gl_copy_tex_image_2d,
  send_gl_copy_tex_sub_image_2d, send_gl_generate_mipmap, send_gl_pixel_storei,
  send_gl_bind_renderbuffer, send_gl_renderbuffer_storage, send_gl_delete_shader,
  send_gl_compile_shader, send_gl_release_shader_compiler, send_gl_delete_program,
  send_gl_attach_shader, send_gl_detach_shader, send_gl_link_program, send_gl_use_program,
  send_gl_validate_program,
}
use webos_bridge_64to.Calls.Send.State.{
  send_gl_viewport, send_gl_scissor, send_gl_enable, send_gl_disable, send_gl_cull_face,
  send_gl_front_face, send_gl_line_width, send_gl_polygon_offset, send_gl_sample_coverage,
  send_gl_hint, send_gl_blend_color, send_gl_blend_equation, send_gl_blend_equation_separate,
  send_gl_blend_func, send_gl_blend_func_separate, send_gl_depth_func, send_gl_depth_mask,
  send_gl_depth_rangef, send_gl_color_mask, send_gl_stencil_func, send_gl_stencil_func_separate,
  send_gl_stencil_mask, send_gl_stencil_mask_separate, send_gl_stencil_op,
  send_gl_stencil_op_separate, send_gl_clear, send_gl_clear_color, send_gl_clear_depthf,
  send_gl_clear_stencil, send_gl_flush,
}
use webos_bridge_64to.Calls.Send.Gles3.{
  send_gl_begin_query, send_gl_end_query, send_gl_bind_sampler, send_gl_draw_arrays_instanced,
  send_gl_copy_tex_sub_image_3d, send_gl_vertex_attrib_i4i, send_gl_vertex_attrib_i4ui,
  send_gl_end_transform_feedback, send_gl_uniform1ui, send_gl_uniform2ui, send_gl_uniform3ui,
  send_gl_uniform4ui, send_gl_tex_storage_3d, send_gl_color_maski, send_gl_enablei,
  send_gl_disablei, send_gl_bind_buffer_base, send_gl_sampler_parameteri,
  send_gl_sampler_parameterf, send_gl_begin_transform_feedback, send_gl_uniform_block_binding,
  send_gl_renderbuffer_storage_multisample, send_gl_blit_framebuffer,
  send_gl_bind_transform_feedback, send_gl_pause_transform_feedback,
  send_gl_resume_transform_feedback, send_gl_bind_image_texture, send_gl_pop_debug_group,
  send_gl_read_buffer, send_gl_clear_bufferfi, send_gl_tex_buffer, send_gl_program_parameteri,
  send_gl_tex_storage_3d_multisample, send_gl_min_sample_shading, send_gl_copy_image_sub_data,
  send_gl_memory_barrier, send_gl_dispatch_compute, send_gl_tex_storage_2d_multisample,
  send_gl_primitive_bounding_box, send_gl_use_program_stages, send_gl_bind_program_pipeline,
  send_gl_active_shader_program, send_gl_validate_program_pipeline,
  send_gl_memory_barrier_by_region, send_gl_blend_barrier, send_gl_patch_parameteri,
}

unfoldable pub send : GlCall → Command
send (Api.gl_active_texture texture) = send_gl_active_texture texture
send (Api.gl_bind_texture target texture) = send_gl_bind_texture target texture
send (Api.gl_copy_tex_image_2d target level_arg internalformat x y width height border) =
    send_gl_copy_tex_image_2d target level_arg internalformat x y width height border
send (Api.gl_copy_tex_sub_image_2d target level_arg xoffset yoffset x y width height) =
    send_gl_copy_tex_sub_image_2d target level_arg xoffset yoffset x y width height
send (Api.gl_generate_mipmap target) = send_gl_generate_mipmap target
send (Api.gl_pixel_storei pname param) = send_gl_pixel_storei pname param
send (Api.gl_bind_renderbuffer target renderbuffer) = send_gl_bind_renderbuffer target renderbuffer
send (Api.gl_renderbuffer_storage target internalformat width height) =
    send_gl_renderbuffer_storage target internalformat width height
send (Api.gl_delete_shader shader) = send_gl_delete_shader shader
send (Api.gl_compile_shader shader) = send_gl_compile_shader shader
send Api.gl_release_shader_compiler = send_gl_release_shader_compiler
send (Api.gl_delete_program program) = send_gl_delete_program program
send (Api.gl_attach_shader program shader) = send_gl_attach_shader program shader
send (Api.gl_detach_shader program shader) = send_gl_detach_shader program shader
send (Api.gl_link_program program) = send_gl_link_program program
send (Api.gl_use_program program) = send_gl_use_program program
send (Api.gl_validate_program program) = send_gl_validate_program program
send (Api.gl_viewport x y w h) = send_gl_viewport x y w h
send (Api.gl_scissor x y width height) = send_gl_scissor x y width height
send (Api.gl_enable cap) = send_gl_enable cap
send (Api.gl_disable cap) = send_gl_disable cap
send (Api.gl_cull_face mode) = send_gl_cull_face mode
send (Api.gl_front_face mode) = send_gl_front_face mode
send (Api.gl_line_width width) = send_gl_line_width width
send (Api.gl_polygon_offset factor units) = send_gl_polygon_offset factor units
send (Api.gl_sample_coverage value invert) = send_gl_sample_coverage value invert
send (Api.gl_hint target mode) = send_gl_hint target mode
send (Api.gl_blend_color r g b a) = send_gl_blend_color r g b a
send (Api.gl_blend_equation mode) = send_gl_blend_equation mode
send (Api.gl_blend_equation_separate mode_rgb mode_alpha) =
    send_gl_blend_equation_separate mode_rgb mode_alpha
send (Api.gl_blend_func sfactor dfactor) = send_gl_blend_func sfactor dfactor
send (Api.gl_blend_func_separate src_rgb dst_rgb src_alpha dst_alpha) =
    send_gl_blend_func_separate src_rgb dst_rgb src_alpha dst_alpha
send (Api.gl_depth_func func) = send_gl_depth_func func
send (Api.gl_depth_mask flag) = send_gl_depth_mask flag
send (Api.gl_depth_rangef n f) = send_gl_depth_rangef n f
send (Api.gl_color_mask r g b a) = send_gl_color_mask r g b a
send (Api.gl_stencil_func func ref_arg mask) = send_gl_stencil_func func ref_arg mask
send (Api.gl_stencil_func_separate face func ref_arg mask) =
    send_gl_stencil_func_separate face func ref_arg mask
send (Api.gl_stencil_mask mask) = send_gl_stencil_mask mask
send (Api.gl_stencil_mask_separate face mask) = send_gl_stencil_mask_separate face mask
send (Api.gl_stencil_op fail zfail zpass) = send_gl_stencil_op fail zfail zpass
send (Api.gl_stencil_op_separate face sfail dpfail dppass) =
    send_gl_stencil_op_separate face sfail dpfail dppass
send (Api.gl_clear mask) = send_gl_clear mask
send (Api.gl_clear_color r g b a) = send_gl_clear_color r g b a
send (Api.gl_clear_depthf d) = send_gl_clear_depthf d
send (Api.gl_clear_stencil s) = send_gl_clear_stencil s
send Api.gl_flush = send_gl_flush
send (Api.gl_begin_query target id) = send_gl_begin_query target id
send (Api.gl_end_query target) = send_gl_end_query target
send (Api.gl_bind_sampler unit sampler) = send_gl_bind_sampler unit sampler
send (Api.gl_draw_arrays_instanced mode first count instancecount) =
    send_gl_draw_arrays_instanced mode first count instancecount
send (Api.gl_copy_tex_sub_image_3d target level_arg xoffset yoffset zoffset x y width height) =
    send_gl_copy_tex_sub_image_3d target level_arg xoffset yoffset zoffset x y width height
send (Api.gl_vertex_attrib_i4i index x y z w) = send_gl_vertex_attrib_i4i index x y z w
send (Api.gl_vertex_attrib_i4ui index x y z w) = send_gl_vertex_attrib_i4ui index x y z w
send Api.gl_end_transform_feedback = send_gl_end_transform_feedback
send (Api.gl_uniform1ui location v0) = send_gl_uniform1ui location v0
send (Api.gl_uniform2ui location v0 v1) = send_gl_uniform2ui location v0 v1
send (Api.gl_uniform3ui location v0 v1 v2) = send_gl_uniform3ui location v0 v1 v2
send (Api.gl_uniform4ui location v0 v1 v2 v3) = send_gl_uniform4ui location v0 v1 v2 v3
send (Api.gl_tex_storage_3d target levels internalformat width height depth) =
    send_gl_tex_storage_3d target levels internalformat width height depth
send (Api.gl_color_maski index r g b a) = send_gl_color_maski index r g b a
send (Api.gl_enablei cap index) = send_gl_enablei cap index
send (Api.gl_disablei cap index) = send_gl_disablei cap index
send (Api.gl_bind_buffer_base target index buffer) = send_gl_bind_buffer_base target index buffer
send (Api.gl_sampler_parameteri sampler pname param) =
    send_gl_sampler_parameteri sampler pname param
send (Api.gl_sampler_parameterf sampler pname param) =
    send_gl_sampler_parameterf sampler pname param
send (Api.gl_begin_transform_feedback primitive_mode) =
    send_gl_begin_transform_feedback primitive_mode
send (Api.gl_uniform_block_binding program uniform_block_index uniform_block_binding) =
    send_gl_uniform_block_binding program uniform_block_index uniform_block_binding
send (Api.gl_renderbuffer_storage_multisample target samples internalformat width height) =
    send_gl_renderbuffer_storage_multisample target samples internalformat width height
send (Api.gl_blit_framebuffer src_x0 src_y0 src_x1 src_y1 dst_x0 dst_y0 dst_x1 dst_y1 mask filter) =
    send_gl_blit_framebuffer src_x0 src_y0 src_x1 src_y1 dst_x0 dst_y0 dst_x1 dst_y1 mask filter
send (Api.gl_bind_transform_feedback target id) = send_gl_bind_transform_feedback target id
send Api.gl_pause_transform_feedback = send_gl_pause_transform_feedback
send Api.gl_resume_transform_feedback = send_gl_resume_transform_feedback
send (Api.gl_bind_image_texture unit texture level_arg layered layer access format) =
    send_gl_bind_image_texture unit texture level_arg layered layer access format
send Api.gl_pop_debug_group = send_gl_pop_debug_group
send (Api.gl_read_buffer src) = send_gl_read_buffer src
send (Api.gl_clear_bufferfi buffer drawbuffer depth stencil) =
    send_gl_clear_bufferfi buffer drawbuffer depth stencil
send (Api.gl_tex_buffer target internalformat buffer) =
    send_gl_tex_buffer target internalformat buffer
send (Api.gl_program_parameteri program pname value) =
    send_gl_program_parameteri program pname value
send
      (Api.gl_tex_storage_3d_multisample target samples internalformat width height depth
        fixedsamplelocations) =
    send_gl_tex_storage_3d_multisample target samples internalformat width height depth
      fixedsamplelocations
send (Api.gl_min_sample_shading value) = send_gl_min_sample_shading value
send
      (Api.gl_copy_image_sub_data src_name src_target src_level src_x src_y src_z dst_name
        dst_target dst_level dst_x dst_y dst_z src_width src_height src_depth) =
    send_gl_copy_image_sub_data src_name src_target src_level src_x src_y src_z dst_name dst_target
      dst_level dst_x dst_y dst_z src_width src_height src_depth
send (Api.gl_memory_barrier barriers) = send_gl_memory_barrier barriers
send (Api.gl_dispatch_compute num_groups_x num_groups_y num_groups_z) =
    send_gl_dispatch_compute num_groups_x num_groups_y num_groups_z
send
      (Api.gl_tex_storage_2d_multisample target samples internalformat width height
        fixedsamplelocations) =
    send_gl_tex_storage_2d_multisample target samples internalformat width height
      fixedsamplelocations
send (Api.gl_primitive_bounding_box min_x min_y min_z min_w max_x max_y max_z max_w) =
    send_gl_primitive_bounding_box min_x min_y min_z min_w max_x max_y max_z max_w
send (Api.gl_use_program_stages pipeline stages program) =
    send_gl_use_program_stages pipeline stages program
send (Api.gl_bind_program_pipeline pipeline) = send_gl_bind_program_pipeline pipeline
send (Api.gl_active_shader_program pipeline program) =
    send_gl_active_shader_program pipeline program
send (Api.gl_validate_program_pipeline pipeline) = send_gl_validate_program_pipeline pipeline
send (Api.gl_memory_barrier_by_region barriers) = send_gl_memory_barrier_by_region barriers
send Api.gl_blend_barrier = send_gl_blend_barrier
send (Api.gl_patch_parameteri pname value) = send_gl_patch_parameteri pname value
